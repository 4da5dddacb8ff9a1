-- ===== src/Tests/Pack.antt =====
-- A small stand-in for msgpack-c, with heads of one number each, and its reader.
use bo_smart_factory_opcua_t.Base.{
  ℕ, zero, suc, ◌+◌, ◌-◌, ◌≡◌, ◌<◌, refl, ap, true, false, List, [], ◌∷◌, ◌++◌, Option, none, some,
  arith, if◌then◌else◌, length, take, ltb, lt→ltb, le→ltb,
}
use bo_smart_factory_opcua_t.Bridge.Frame.{MsgPack, MsgPackSizes}
use bo_smart_factory_opcua_t.Bridge.Frame.Reader.{
  Unpacker, Reads, Item, map_head, array_head, text, number, boolean,
}

abbrev pub tiny_pack : MsgPack
tiny_pack = record {
  pack_map = λ n. (256 + n) ∷ [];
  pack_array = λ n. (272 + n) ∷ [];
  pack_str = λ n. (288 + n) ∷ [];
  pack_str_body = λ s n. take n s;
  pack_uint8 = λ n. n ∷ [];
  pack_uint64 = λ n. 322 ∷ n ∷ [];
  pack_true = 320 ∷ [];
  pack_false = 321 ∷ [];
}

abbrev pub drop : ℕ → List ℕ → List ℕ
drop zero l = l
drop (suc n) [] = []
drop (suc n) (x ∷ l) = drop n l

abbrev pub first_number : List ℕ → Option (Item × List ℕ)
first_number [] = none
first_number (n ∷ r) = some (number n, r)

unfoldable pub next_item : ℕ → List ℕ → Option (Item × List ℕ)
next_item x r =
    if ltb x 256
    then some (number x, r)
    else if ltb x 272
    then some (map_head (x - 256), r)
    else if ltb x 288
    then some (array_head (x - 272), r)
    else if ltb x 320
    then some (text (take (x - 288) r), drop (x - 288) r)
    else if ltb x 321
    then some (boolean true, r)
    else if ltb x 322
    then some (boolean false, r)
    else first_number r

abbrev pub next : List ℕ → Option (Item × List ℕ)
next [] = none
next (x ∷ r) = next_item x r

abbrev pub tiny_unpacker : Unpacker
tiny_unpacker = record { next = next }

pub take_self : (s : List ℕ) → take (length s) s ≡ s
take_self [] = refl
take_self (x ∷ s) = ap (◌∷◌ x) (take_self s)

pub take-append_self : (s r : List ℕ) → take (length s) (s ++ r) ≡ s
take-append_self [] r = refl
take-append_self (x ∷ s) r = ap (◌∷◌ x) (take-append_self s r)

pub drop-append_self : (s r : List ℕ) → drop (length s) (s ++ r) ≡ r
drop-append_self [] r = refl
drop-append_self (x ∷ s) r = drop-append_self s r

next_text :
    (s r : List ℕ)
    → length s < 32
    → next ((288 + length s) ∷ take (length s) s ++ r) ≡ some (text s, r)
unfolding next_item
next_text s r h =
    let n : (288 + length s) - 288 ≡ length s = omega arith in
    rw
      (
        take_self s,
        le→ltb (288 + length s) 256 (omega arith),
        le→ltb (288 + length s) 272 (omega arith),
        le→ltb (288 + length s) 288 (omega arith),
        lt→ltb (288 + length s) 320 (omega arith),
        n,
        take-append_self s r,
        drop-append_self s r,
      )
      refl

pub tiny-Reads : Reads tiny_pack tiny_unpacker
unfolding next_item
tiny-Reads = record {
  next-pack_map = λ n r h. ground arith;
  next-pack_array = λ n r h. ground arith;
  next-pack_str = λ s r h. next_text s r h;
  next-pack_uint8 = λ n r h. ground arith;
  next-pack_uint64 = λ n r h. refl;
  next-pack_true = λ r. refl;
  next-pack_false = λ r. refl;
}

pub tiny-MsgPackSizes : MsgPackSizes tiny_pack
tiny-MsgPackSizes = record {
  length-pack_map = λ n h. refl;
  length-pack_array = λ n h. refl;
  length-pack_str = λ n h. refl;
  length-pack_str_body = λ s. ap length (take_self s);
  length-pack_uint8 = λ n h. refl;
  length-pack_uint64 = λ n. omega arith;
  length-pack_uint64-le = λ n. omega arith;
  length-pack_true = refl;
  length-pack_false = refl;
}
