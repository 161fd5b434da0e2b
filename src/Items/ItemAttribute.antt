-- ===== src/Items/ItemAttribute.antt =====
-- itemAttrTypes of src/utils/enums.h: the number of the bit of an attribute.
use forgotten_land.Base.{ℕ}

abbrev pub action_id : ℕ
action_id = 0

abbrev pub unique_id : ℕ
unique_id = 1

abbrev pub description : ℕ
description = 2

abbrev pub text : ℕ
text = 3

abbrev pub date : ℕ
date = 4

abbrev pub writer : ℕ
writer = 5

abbrev pub name : ℕ
name = 6

abbrev pub article : ℕ
article = 7

abbrev pub plural_name : ℕ
plural_name = 8

abbrev pub weight : ℕ
weight = 9

abbrev pub attack : ℕ
attack = 10

abbrev pub defense : ℕ
defense = 11

abbrev pub extra_defense : ℕ
extra_defense = 12

abbrev pub armor : ℕ
armor = 13

abbrev pub hit_chance : ℕ
hit_chance = 14

abbrev pub shoot_range : ℕ
shoot_range = 15

abbrev pub duration : ℕ
duration = 17

abbrev pub decay_state : ℕ
decay_state = 18

abbrev pub charges : ℕ
charges = 20

abbrev pub fluid_type : ℕ
fluid_type = 21

abbrev pub special : ℕ
special = 23

abbrev pub imbuement_slot : ℕ
imbuement_slot = 24

abbrev pub open_container : ℕ
open_container = 25

abbrev pub quickloot_container : ℕ
quickloot_container = 26

abbrev pub duration_timestamp : ℕ
duration_timestamp = 27

abbrev pub imbuement_type : ℕ
imbuement_type = 28
