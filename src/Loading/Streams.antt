-- ===== src/Loading/Streams.antt =====
-- `PropStream` of src/io/fileloader.h reads the bytes of a word or of a string off its front.
use forgotten_land.Base.{
  ℕ, ◌^◌, ◌≤◌, ◌<◌, ◌≡◌, refl, false, ltb, some, List, ◌++◌, length, take, drop, arith,
  length-append, take-append, drop-append,
}
use forgotten_land.Network.Message.Bytes.{from_le, le_bytes, length-le_bytes, from_le-le_bytes}
use forgotten_land.Loading.PropStream.{read, read_text, read_string}

take_front : (n : ℕ) (xs ys : List ℕ) → length xs ≡ n → take n (xs ++ ys) ≡ xs
take_front n xs ys h = rw h at (take-append xs ys)

drop_front : (n : ℕ) (xs ys : List ℕ) → length xs ≡ n → drop n (xs ++ ys) ≡ ys
drop_front n xs ys h = rw h at (drop-append xs ys)

enough : (n : ℕ) (xs ys : List ℕ) → length xs ≡ n → ltb (length (xs ++ ys)) n ≡ false
enough n xs ys h = let l = length-append xs ys in ground arith

-- As many bytes as a value has are read off the front of a stream, and so is a text of a known length.
pub read_exact :
    (width : ℕ) (front rest : List ℕ)
    → length front ≡ width
    → read width (front ++ rest) ≡ some (from_le front, rest)
unfolding read
read_exact width front rest l =
    let long = enough width front rest l in
    let taken = take_front width front rest l in
    let dropped = drop_front width front rest l in rw (long, taken, dropped)

pub read-le_bytes :
    (width v : ℕ) (rest : List ℕ)
    → v < 256 ^ width
    → read width (le_bytes width v ++ rest) ≡ some (v, rest)
read-le_bytes width v rest h =
    let same = from_le-le_bytes width v h in
    let exact = read_exact width (le_bytes width v) rest (length-le_bytes width v) in
    rw same at exact

pub read_text_lem : (str rest : List ℕ) → read_text (length str) (str ++ rest) ≡ some (str, rest)
unfolding read_text
read_text_lem str rest =
    let long = enough (length str) str rest refl in
    rw (long, take-append str rest, drop-append str rest)

pub read_string_lem :
    (str rest : List ℕ)
    → length str ≤ 65535
    → read_string (le_bytes 2 (length str) ++ (str ++ rest)) ≡ some (str, rest)
unfolding read_string
read_string_lem str rest h =
    rw (read-le_bytes 2 (length str) (str ++ rest) (omega arith)) (read_text_lem str rest)
