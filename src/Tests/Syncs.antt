-- ===== src/Tests/Syncs.antt =====
-- A patch of the app's state that one device sends and another reads.
use wassupweb.Prelude.{
  ℕ, zero, suc, ◌+◌, ◌%◌, ◌<◌, ◌≡◌, refl, true, false, Option, none, some, List, [], ◌∷◌, arith,
  ◌==◌, IsByte, Bytes, All, length, replicate, length-replicate, Result, ok, err, value_error,
}
use wassupweb.Text.{Text, ascii, text_eq}
use wassupweb.Hash.{IsSha512}
use wassupweb.Sync.{op_set, op_remove, LtHashState, new_lthash_state}
use wassupweb.Sync.Macs.{Digests, AreDigests}
use wassupweb.Sync.Encode.{
  or_else, Action, Json, Mutation, SyncdPatch, PatchCreate, action_of, encode_syncd_patch,
}
use wassupweb.Sync.Decode.{decode_patches}
use wassupweb.Sync.Sealed.{IsSealed}
use wassupweb.Sync.Synced.{Synced, begun, patched, Synced-IsSealed}
use wassupweb.Sync.Checked.{IsVouched, decode_patches-IsVouched}
use wassupweb.Sync.Totals.{total}
use wassupweb.Sync.Delivery.{decode_patches-encode_syncd_patch}
use wassupweb.Tests.Toy.{toy, toy-IsCipher, value_of}

abbrev first_of : Bytes → ℕ
first_of [] = 0
first_of (b ∷ bytes) = b

abbrev digests : Digests
digests = record {
  sha512 = λ message. replicate 64 (length message % 256);
  hmac_sha512 = λ key message. replicate 64 (first_of message + first_of key);
}

digests-AreDigests : AreDigests digests
digests-AreDigests = record {
  length-hmac = λ key message. length-replicate 64 (first_of message + first_of key);
}

digests-IsSha512 : IsSha512 digests.sha512
digests-IsSha512 = record {
  size = λ message. length-replicate 64 (length message % 256);
  in_range = λ message. all_bytes 64 (length message % 256) (omega arith);
}
  where
    all_bytes : (n b : ℕ) → b < 256 → All IsByte (replicate n b)
    all_bytes zero b h = tt
    all_bytes (suc n) b h = (h, all_bytes n b h)

abbrev mute : List Text
mute = ascii "mute" ∷ ascii "1@s.whatsapp.net" ∷ []

abbrev byte_of : Option ℕ → Bytes
byte_of none = 0 ∷ []
byte_of (some v) = v ∷ []

abbrev read_back : Bytes → Action ℕ
read_back bytes = record { index = some mute; value = some (first_of bytes); version = some 2 }

-- JSON of actions that all have the same index and version.
abbrev json : Json ℕ
json = record {
  compact_index = λ index. length index ∷ [];
  spaced_index = λ index. ascii "mute";
  dumps = λ a. byte_of a.value;
  loads = λ bytes. ok (read_back bytes);
}

abbrev muted : PatchCreate ℕ
muted = record {
  index = mute;
  sync_action = 7;
  operation = none;
  api_version = some 2;
  patch_type = ascii "regular_high";
}

abbrev key_of : Bytes → Option Bytes
key_of key_id = some (9 ∷ key_id)

abbrev nothing_more : ℕ → Result (List Mutation)
nothing_more blob = err (value_error "download")

abbrev empty_patch : SyncdPatch ℕ
empty_patch = record {
  patch_mac = none;
  snapshot_mac = none;
  key_id = none;
  version = none;
  mutations = [];
  external_mutations = none;
}

abbrev encoded : Result (SyncdPatch ℕ × LtHashState)
encoded =
    encode_syncd_patch toy digests json muted (1 ∷ 2 ∷ []) (replicate 16 3) new_lthash_state key_of

abbrev made : SyncdPatch ℕ × LtHashState
made = value_of (empty_patch, new_lthash_state) encoded

encoded_made : encoded ≡ ok made
unfolding encode_syncd_patch
encoded_made = refl

muted_sets : or_else op_set muted.operation == op_remove ≡ false
unfolding or_else
muted_sets = refl

muted_read : json.loads (json.dumps (action_of muted)) ≡ ok (action_of muted)
unfolding action_of
muted_read = refl

decode_patches-encode_syncd_patch_example :
    decode_patches toy digests json key_of nothing_more
      (ascii "regular_high")
      (made.0 ∷ [])
      new_lthash_state
      none
      true
    ≡ ok (made.1, (ascii "mute", action_of muted) ∷ [])
decode_patches-encode_syncd_patch_example =
    decode_patches-encode_syncd_patch toy digests json key_of nothing_more muted (1 ∷ 2 ∷ [])
      (replicate 16 3) new_lthash_state made.1 made.0 toy-IsCipher digests-AreDigests refl
      muted_read muted_sets encoded_made

decoded_made :
    decode_patches toy digests json key_of nothing_more
      (ascii "regular_high")
      (made.0 ∷ [])
      new_lthash_state
      none
      true
    ≡ ok (made.1, (ascii "mute", action_of muted) ∷ [])
unfolding decode_patches action_of encode_syncd_patch text_eq
decoded_made = refl

-- A device that has read the patch.
there : Synced toy digests json key_of nothing_more made.1
there =
    patched (ascii "regular_high") (made.0 ∷ []) none true new_lthash_state made.1
      ((ascii "mute", action_of muted) ∷ []) begun decoded_made

Synced-IsSealed_example : IsSealed digests.sha512 made.1
Synced-IsSealed_example =
    Synced-IsSealed toy digests digests-IsSha512 json key_of nothing_more made.1 there

new_lthash_state-IsSealed : IsSealed digests.sha512 new_lthash_state
unfolding IsSealed
new_lthash_state-IsSealed = refl

decode_patches-IsVouched_example :
    IsVouched toy digests json key_of
      (ascii "regular_high")
      made.0
      (made.1).version
      (total digests.sha512 (made.1).index_value_map)
decode_patches-IsVouched_example =
    decode_patches-IsVouched toy digests json key_of nothing_more (ascii "regular_high") [] made.0
      new_lthash_state made.1 none ((ascii "mute", action_of muted) ∷ []) digests-IsSha512
      new_lthash_state-IsSealed decoded_made
