-- ===== src/Derive/Tests.antt =====
-- The macro of round-based-derive/src/lib.rs on an enum of two variants.
use round_based.Prelude.{
  ℕ, ◌≡◌, ◌↔◌, refl, false, true, none, some, List, [], ◌∷◌, arith, ok, err, get_elem?,
}
use round_based.Derive.{
  Variant, unnamed, unit, an_enum, a_struct, CompileError, RoundMsgImpl, Expansion, gives, expand,
  Value, round, to_protocol_msg, from_protocol_msg, refuses, round_based_path, protocol_msg,
  attribute_twice, only_enum, root_attribute,
}
use round_based.Derive.Contract.{
  HasOneField, IsProtocol, IsValueOf, expand-contract, expand-refuses_iff,
}

-- `enum Msg { Round1(Msg1), Round2(Msg2) }`
abbrev msg : List Variant
msg =
    record { ident = 11; fields = unnamed (21 ∷ []) }
    ∷ record { ident = 12; fields = unnamed (22 ∷ []) }
    ∷ []

abbrev second : RoundMsgImpl
second = record { msg_type = 22; round = 1; variant = 12 }

abbrev expanded : Expansion
expanded = record {
  root_path = round_based_path;
  round = gives 11 0 ∷ gives 12 1 ∷ [];
  impls = record { msg_type = 21; round = 0; variant = 11 } ∷ second ∷ [];
}

expands : protocol_msg [] (an_enum msg) ≡ ok expanded
unfolding protocol_msg root_attribute expand
expands = refl

struct_refused : protocol_msg [] a_struct ≡ err only_enum
unfolding protocol_msg root_attribute expand
struct_refused = refl

twice_refused :
    protocol_msg
      (record { is_protocol_msg = true; parsed = some 5 }
        ∷ record { is_protocol_msg = false; parsed = none }
        ∷ record { is_protocol_msg = true; parsed = some 6 }
        ∷ [])
      (an_enum msg)
    ≡ err attribute_twice
unfolding protocol_msg root_attribute
twice_refused = refl

msg-IsProtocol : IsProtocol msg
msg-IsProtocol = ((21, refl), ((λ e. ground (arith, e)), tt), ((22, refl), tt, tt))

expand-contract_example :
    (second.round ≡ 1)
    × ((field : ℕ) → round expanded.round (to_protocol_msg second field) ≡ some second.round)
    × ((field : ℕ) → from_protocol_msg second (to_protocol_msg second field) ≡ ok field)
    × ((value : Value)
        → IsValueOf msg value
        → (round expanded.round value ≡ some second.round)
          ↔ ((field : ℕ) × (from_protocol_msg second value ≡ ok field)))
unfolding expand
expand-contract_example =
    expand-contract msg none expanded 1 second msg-IsProtocol (omega arith) refl refl

abbrev bad : Variant
bad = record { ident = 13; fields = unit }

abbrev refused : Expansion
refused = record {
  root_path = round_based_path;
  round = refuses 13 CompileError.unit_variant ∷ [];
  impls = [];
}

expand-refuses_iff_example :
    ((e : CompileError) × (get_elem? refused.round 0 ≡ some (refuses 13 e))) ↔ ¬ HasOneField bad
unfolding expand
expand-refuses_iff_example = expand-refuses_iff (bad ∷ []) none refused 0 bad refl refl
