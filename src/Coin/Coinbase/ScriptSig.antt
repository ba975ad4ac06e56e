-- ===== src/Coin/Coinbase/ScriptSig.antt =====
-- The script signature that the builder writes: its height and its flags read back.
use azcoin_stratum_pool.Prelude.{
  ℕ, ◌^◌, ◌<◌, Option, none, some, [], ◌∷◌, ◌++◌, length, nat_eq, ◌≡◌, ap, sym, ◌∙◌, arith,
}
use mathlib.Core.List.{append_assoc, append-nil}
use azcoin_stratum_pool.PoolCore.Types.{Bytes}
use azcoin_stratum_pool.Coin.Coinbase.{encode_script_num, push_data, build_coinbase_script_sig}
use azcoin_stratum_pool.Coin.Coinbase.Script.{
  decode_script_num, read_push, read_push-push_data, decode-encode_script_num,
  encode_script_num_short,
}

-- What an interpreter of pushes reads from a script: the first push, and the second when bytes are
-- left.
pub data ScriptParts : Type 0 where
  unreadable : ScriptParts
  height_only : ℕ → ScriptParts
  height_and_flags : ℕ → Bytes → ScriptParts

unfoldable pub flags_of_push : ℕ → Option (Bytes × Bytes) → ScriptParts
flags_of_push height none = unreadable
flags_of_push height (some (flags, [])) = height_and_flags height flags
flags_of_push height (some (flags, b ∷ bs)) = unreadable

unfoldable pub read_flags : ℕ → Bytes → ScriptParts
read_flags height [] = height_only height
read_flags height (b ∷ bs) = flags_of_push height (read_push (b ∷ bs))

unfoldable pub read_after : Bytes → Option ℕ → ScriptParts
read_after after none = unreadable
read_after after (some height) = read_flags height after

unfoldable pub read_height : Option (Bytes × Bytes) → ScriptParts
read_height none = unreadable
read_height (some (pushed, after)) = read_after after (decode_script_num pushed)

unfoldable pub read_script_sig : Bytes → ScriptParts
read_script_sig script = read_height (read_push script)

-- The parts that the template asks for: absent flags and empty flags both leave the height alone.
unfoldable pub wanted_parts : ℕ → Option Bytes → ScriptParts
wanted_parts height none = height_only height
wanted_parts height (some []) = height_only height
wanted_parts height (some (b ∷ bs)) = height_and_flags height (b ∷ bs)

-- The flags of a template are shorter than 2 ^ 32 bytes.
unfoldable pub ShortFlags : Option Bytes → Type 0
ShortFlags none = Unit
ShortFlags (some flags) = length flags < 2 ^ 32

read_script_sig-height :
    (height : ℕ) (rest : Bytes)
    → height < 2 ^ 64
    → read_script_sig (push_data [] (encode_script_num height) ++ rest) ≡ read_flags height rest
unfolding read_script_sig read_height read_after
read_script_sig-height height rest h =
    let short : length (encode_script_num height) < 2 ^ 32 =
      omega (arith, encode_script_num_short height) in
    ap read_height (read_push-push_data (encode_script_num height) rest short)
    ∙ ap (read_after rest) (decode-encode_script_num height h)

read_flags-whole :
    (height : ℕ) (script flags : Bytes)
    → read_push script ≡ some (flags, [])
    → read_flags height script ≡ height_and_flags height flags
unfolding read_flags flags_of_push read_push
read_flags-whole height [] flags h = cc
read_flags-whole height (b ∷ bs) flags h = ap (flags_of_push height) h

-- The script signature of a coinbase, read by an interpreter of pushes, gives the height and the
-- flags of the template, for every height of a `u64` and flags of less than 2 ^ 32 bytes; absent and
-- empty flags both give the height alone.
pub read_script_sig-build_coinbase_script_sig :
    (height : ℕ) (flags : Option Bytes)
    → height < 2 ^ 64
    → ShortFlags flags
    → read_script_sig (build_coinbase_script_sig height flags) ≡ wanted_parts height flags
unfolding build_coinbase_script_sig wanted_parts read_flags ShortFlags push_data
read_script_sig-build_coinbase_script_sig height none h short =
    ap read_script_sig (sym (append-nil _)) ∙ read_script_sig-height height [] h
read_script_sig-build_coinbase_script_sig height (some []) h short =
    ap read_script_sig (sym (append-nil _)) ∙ read_script_sig-height height [] h
read_script_sig-build_coinbase_script_sig height (some (b ∷ bs)) h short =
    ap read_script_sig (append_assoc [] (push_data [] (encode_script_num height)) _)
    ∙ (read_script_sig-height height (push_data [] (b ∷ bs)) h
        ∙ read_flags-whole height (push_data [] (b ∷ bs)) (b ∷ bs)
            (ap read_push (sym (append-nil _)) ∙ read_push-push_data (b ∷ bs) [] short))
