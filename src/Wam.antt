-- ===== src/Wam.antt =====
-- wassupweb/wam/encode.py, with the flags of wassupweb/wam/constants.py. The tables of events and of
-- globals are arguments; a `float` is an argument's type, with the eight bytes that `struct` gives it.
pub mod Serialize
pub mod Events
pub mod Reader
mod Header
pub mod FieldTrip
pub mod Records
pub mod Stream
use wassupweb.Prelude.{
  ℕ, zero, suc, ◌+◌, ◌-◌, ◌*◌, ◌/◌, ◌%◌, ◌^◌, ◌≤◌, ◌<◌, min, max, bit_and, bit_or, String, ◌≡◌,
  refl, sym, ap, ◌∙◌, ◌≢◌, ◌↔◌, ◌⊎◌, inl, inr, Bool, true, false, not, ◌&&◌, ◌||◌, Option, none,
  some, List, [], ◌∷◌, ◌++◌, map, arith, ltb, leb, ◌==◌, if◌then◌else◌, ltb→lt, lt→ltb, le→ltb,
  ==_iff, Bool-cases, Option-cases, ltb→le, IsByte, Bytes, All, All-append, length, get_elem?, take,
  drop, replicate, length-append, length-take, length-drop, length-replicate, take-length-append,
  drop-length-append, drop-add, take-length, Exception, Result, ◌>>=◌, ◌>>◌, ok, err, value_error,
  runtime_error, type_error, index_error, struct_error, key_error, recursion_error, Result-cases,
  >>=-eq-ok, ok-injective,
}
use wassupweb.Text.{Text, ascii, text_eq}
use wassupweb.Text.Number.{ℤ, pos, negsuc}

-- A value of `float`: `float(n)` and `struct.pack("<d", x)`.
pub record Doubles (F : Type 0) : Type 0 where
  pub of_int : ℤ → Result F
  pub pack_double : F → Bytes

pub data Value (F : Type 0) : Type 0 where
  nothing : Value F
  int : ℤ → Value F
  double : F → Value F
  text : Text → Value F

-- What events and globals carry: a truth value is made a number first.
pub data Raw (F : Type 0) : Type 0 where
  truth : Bool → Raw F
  plain : Value F → Raw F

-- An entry of `WEB_EVENTS`: `props` gives the number of a field.
pub record EventType : Type 0 where
  pub name : Text
  pub id : ℕ
  pub weight : ℕ
  pub props : List (Text × ℕ)

pub record Event (F : Type 0) : Type 0 where
  pub name : Text
  pub props : List (Text × Raw F)
  pub globals : List (Text × Raw F)

-- `buffer` is what a call returns. An item of `events` with no entry is `none`.
pub record BinaryInfo (F : Type 0) : Type 0 where
  pub protocol_version : ℕ
  pub sequence : ℕ
  pub events : List (Option (Event F))

abbrev pub flag_byte : ℕ
flag_byte = 8

abbrev pub flag_global : ℕ
flag_global = 0

abbrev pub flag_field : ℕ
flag_field = 2

abbrev pub flag_event : ℕ
flag_event = 1

abbrev pub flag_extended : ℕ
flag_extended = 4
