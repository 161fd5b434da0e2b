-- ===== src/Loading/PropStream.antt =====
-- `PropStream` and `PropWriteStream` of src/io/fileloader.h: the properties of an item, written and read.
-- A stream is the list of the bytes that it has left; a read that finds too few of them is `none` and takes none.
use forgotten_land.Base.{
  ℕ, ltb, if◌then◌else◌, Option, none, some, ◌>>=◌, List, ◌++◌, length, take, drop,
}
use forgotten_land.Network.Message.Bytes.{le_bytes, from_le}

-- `read<T>`, with the size of `T`.
unfoldable pub read : ℕ → List ℕ → Option (ℕ × List ℕ)
unfolding from_le
read width stream =
    if ltb (length stream) width
    then none
    else some (from_le (take width stream), drop width stream)

unfoldable pub skip : ℕ → List ℕ → Option (List ℕ)
skip n stream = if ltb (length stream) n then none else some (drop n stream)

unfoldable pub read_text : ℕ → List ℕ → Option (List ℕ × List ℕ)
read_text str_len stream =
    if ltb (length stream) str_len then none else some (take str_len stream, drop str_len stream)

-- A string whose bytes are missing leaves the stream behind the length, which no caller looks at.
unfoldable pub read_string : List ℕ → Option (List ℕ × List ℕ)
unfolding read read_text
read_string stream = read 2 stream >>= λ sized. read_text sized.0 sized.1

-- `write<T>` at the end of the buffer.
unfoldable pub write : ℕ → ℕ → List ℕ → List ℕ
unfolding le_bytes
write width add buffer = buffer ++ le_bytes width add

unfoldable pub write_string : List ℕ → List ℕ → List ℕ
unfolding write
write_string str buffer =
    if ltb 65535 (length str) then write 2 0 buffer else write 2 (length str) buffer ++ str
