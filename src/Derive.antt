-- ===== src/Derive.antt =====
-- round-based-derive/src/lib.rs: what `derive(ProtocolMsg)` generates for an enum. Identifiers, types
-- and paths of the syntax tree are numbers; the parser of `syn` is the argument `parse`. The tokens
-- that are quoted are data, with the meaning that Rust gives them.
pub mod Contract
mod Tests
use round_based.Prelude.{
  ℕ, zero, suc, ◌+◌, ◌%◌, Bool, true, false, Option, none, some, List, [], ◌∷◌, ◌++◌, Result, ok,
  err, ◌>>=◌, ◌==◌, if◌then◌else◌, u16_mod,
}

abbrev pub Ident : Type 0
Ident = ℕ

abbrev pub Ty : Type 0
Ty = ℕ

-- `syn::Fields`
pub data Fields : Type 0 where
  unit : Fields
  named : List Ty → Fields
  unnamed : List Ty → Fields

pub record Variant : Type 0 where
  pub ident : Ident
  pub fields : Fields

-- `syn::Data`
pub data SynData : Type 0 where
  an_enum : List Variant → SynData
  a_struct a_union : SynData

-- The texts of `compile_error!`.
pub data CompileError : Type 0 where
  unit_variant named_variant not_one_field only_enum attribute_twice bad_attribute : CompileError

-- An arm of the generated `match self` of `round`: a number, or an error at the arm.
pub data RoundArm : Type 0 where
  gives : Ident → ℕ → RoundArm
  refuses : Ident → CompileError → RoundArm

-- A generated `impl RoundMsg<msg_type>`.
pub record RoundMsgImpl : Type 0 where
  pub msg_type : Ty
  pub round : ℕ
  pub variant : Ident

-- The successor in the range `0u16..`.
abbrev next16 : ℕ → ℕ
next16 i = (i + 1) % u16_mod

unfoldable round_arm : ℕ → Variant → RoundArm
round_arm i variant = elim variant.fields [
  | unit ↦ refuses variant.ident unit_variant
  | named _ ↦ refuses variant.ident named_variant
  | unnamed [] ↦ refuses variant.ident not_one_field
  | unnamed (ty ∷ []) ↦ gives variant.ident i
  | unnamed (ty ∷ ty' ∷ rest) ↦ refuses variant.ident not_one_field
]

-- `round_method`, from the `i`-th variant on.
unfoldable round_method : ℕ → List Variant → List RoundArm
round_method i [] = []
round_method i (v ∷ vs) = round_arm i v ∷ round_method (next16 i) vs

unfoldable round_msg : ℕ → Variant → List RoundMsgImpl
round_msg i variant = elim variant.fields [
  | unnamed (ty ∷ []) ↦ record { msg_type = ty; round = i; variant = variant.ident } ∷ []
  | _ ↦ []
]

unfoldable round_msgs : ℕ → List Variant → List RoundMsgImpl
round_msgs i [] = []
round_msgs i (v ∷ vs) = round_msg i v ++ round_msgs (next16 i) vs

-- An attribute of the enum: whether it is `protocol_msg`, and what its tokens parse to.
pub record Attribute : Type 0 where
  pub is_protocol_msg : Bool
  pub parsed : Option Ident

-- The loop over the attributes.
unfoldable pub root_attribute : List Attribute → Option Ident → Result (Option Ident) CompileError
root_attribute [] root = ok root
root_attribute (attr ∷ attrs) root =
    let skipped = root_attribute attrs root in
    let taken = root_attribute attrs attr.parsed in
    if attr.is_protocol_msg
    then elim root [
      | some _ ↦ err attribute_twice
      | none ↦ elim attr.parsed [ none ↦ err bad_attribute | some _ ↦ taken ]
    ]
    else skipped

-- The generated code: the path to the crate, the arms of `round`, and the implementations.
pub record Expansion : Type 0 where
  pub root_path : Ident
  pub round : List RoundArm
  pub impls : List RoundMsgImpl

-- `none` stands for no attribute; then the path is `round_based`.
abbrev pub round_based_path : Ident
round_based_path = 0

abbrev root_or_default : Option Ident → Ident
root_or_default none = round_based_path
root_or_default (some path) = path

-- An empty enum gets `match *self {}`, which has no arms.
unfoldable pub expand : SynData → Option Ident → Result Expansion CompileError
unfolding round_method round_arm round_msgs round_msg
expand (an_enum variants) root = ok (record {
  root_path = root_or_default root;
  round = round_method 0 variants;
  impls = round_msgs 0 variants;
})
expand a_struct root = err only_enum
expand a_union root = err only_enum

unfoldable pub protocol_msg : List Attribute → SynData → Result Expansion CompileError
unfolding root_attribute expand
protocol_msg attrs input = root_attribute attrs none >>= expand input

-- A value of the enum: its variant, and the value of the one field.
pub record Value : Type 0 where
  pub variant : Ident
  pub field : ℕ

-- `round`: the first arm that matches.
unfoldable pub round : List RoundArm → Value → Option ℕ
round [] value = none
round (gives ident i ∷ arms) value = if ident == value.variant then some i else round arms value
round (refuses ident e ∷ arms) value = if ident == value.variant then none else round arms value

abbrev pub to_protocol_msg : RoundMsgImpl → ℕ → Value
to_protocol_msg i round_msg = record { variant = i.variant; field = round_msg }

unfoldable pub from_protocol_msg : RoundMsgImpl → Value → Result ℕ Value
from_protocol_msg i protocol_msg =
    if i.variant == protocol_msg.variant then ok protocol_msg.field else err protocol_msg
