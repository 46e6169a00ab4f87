-- ===== src/Macros/Derive.antt =====
-- `#[derive(Pod)]` of inqjet-macros/src/lib.rs, and the assertions of inqjet/src/pod.rs behind it. What
-- the compiler's `needs_drop` says of the type at some arguments is a parameter; a token is not
-- looked at.
use inqjet.Common.{
  ◌≡◌, refl, Bool, true, false, not, ◌&&◌, Option, none, some, List, [], ◌∷◌, ◌++◌, All,
}
use inqjet.Common.Bytes.{Bytes}

pub record DeriveInput {ℓ} (Token : Type ℓ) : Type ℓ where
  pub ident : Bytes
  pub params : List Token
  pub where_clause : List Token

-- The `impl`, and the message of the assertion beside it, if there is one.
pub record Derived {ℓ} (Token : Type ℓ) : Type ℓ where
  pub name : Bytes
  pub generics : List Token
  pub bounds : List Token
  pub assertion : Option Bytes

abbrev must_not_require_drop : Bytes → Bytes
must_not_require_drop name =
    b'P' ∷ b'o' ∷ b'd' ∷ b':' ∷ b' ' ∷ b'`' ∷ []
    ++ name
    ++ (b'`' ∷ b' ' ∷ b'm' ∷ b'u' ∷ b's' ∷ b't' ∷ b' ' ∷ b'n' ∷ b'o' ∷ b't' ∷ b' ' ∷ b'r' ∷ b'e'
        ∷ b'q' ∷ b'u' ∷ b'i' ∷ b'r' ∷ b'e' ∷ b' ' ∷ b'd' ∷ b'r' ∷ b'o' ∷ b'p' ∷ [])

abbrev definition_assertion {ℓ} : {Token : Type ℓ} → Bytes → List Token → Option Bytes
definition_assertion name [] = some (must_not_require_drop name)
definition_assertion name (p ∷ ps) = none

unfoldable pub derive_pod {ℓ} : {Token : Type ℓ} → DeriveInput Token → Derived Token
derive_pod input = record {
  name = input.ident;
  generics = input.params;
  bounds = input.where_clause;
  assertion = definition_assertion input.ident input.params;
}

module _ {ℓ} {Ty : Type ℓ} (needs_drop : List Ty → Bool) where
  -- The assertion of the derived type itself.
  definition_passes : Option Bytes → Bool
  definition_passes none = true
  definition_passes (some message) = not (needs_drop [])

  -- The assertions of `hot_size` and `hot_encode` at the types that a program logs.
  uses_pass : List (List Ty) → Bool
  uses_pass [] = true
  uses_pass (args ∷ uses) = not (needs_drop args) && uses_pass uses

  unfoldable pub compiles {κ} : {Token : Type κ} → DeriveInput Token → List (List Ty) → Bool
  unfolding definition_passes uses_pass
  compiles input uses = definition_passes (derive_pod input).assertion && uses_pass uses

  abbrev DropFree : List Ty → Type 0
  DropFree args = needs_drop args ≡ false

  passed : (b : Bool) → not b ≡ true → b ≡ false
  passed true e = cc
  passed false e = refl

  both_pass : (a b : Bool) → (a && b) ≡ true → (a ≡ true) × (b ≡ true)
  both_pass true b e = (refl, e)
  both_pass false b e = cc

  uses_pass-DropFree : (uses : List (List Ty)) → uses_pass uses ≡ true → All DropFree uses
  unfolding uses_pass
  uses_pass-DropFree [] e = tt
  uses_pass-DropFree (args ∷ uses) e =
      let (here, later) = both_pass (not (needs_drop args)) (uses_pass uses) e in
      (passed (needs_drop args) here, uses_pass-DropFree uses later)

  -- A program with a derived type that compiles copies only values as bytes that need no drop; and if
  -- the type has no parameters, it needs none even where the program never logs it.
  compiles-DropFree {κ} :
      {Token : Type κ} (input : DeriveInput Token) (uses : List (List Ty))
      → compiles input uses ≡ true
      → All DropFree uses × (input.params ≡ [] → DropFree [])
  unfolding compiles derive_pod definition_passes
  compiles-DropFree input uses e =
      let (defined, used) =
        both_pass (definition_passes (derive_pod input).assertion) (uses_pass uses) e in
      (uses_pass-DropFree uses used, λ h. passed (needs_drop []) (rw h at defined))
