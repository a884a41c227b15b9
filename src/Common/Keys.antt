-- ===== src/Common/Keys.antt =====
-- The keys of a map: an interface of decidable equality, and the key types that the program uses.
-- A JSON-RPC request id (packages/context-protocol/src/rpc.ts, `RequestID`) is a string or an integer.
use Prim.Native.Nat.{ℕ}
use mokei.Common.Json.{ℤ, ℤ-discrete}
use Prim.Native.String.{String}
use mathlib.Core.Logic.{inl, inr}
use mathlib.Core.Bool.{Bool, true, false}
use native.Mathlib.Decide.{ℕ_discrete}
use text.Mathlib.Text.{◌==◌}
use text.Mathlib.TextEquality.{eq_iff}
use mokei.Common.Tests.{Bool-cases}

pub record Key {ℓ} (K : Type ℓ) : Type ℓ where
  pub decide : Discrete K

unfoldable pub String-discrete : Discrete String
unfolding Bool-cases
String-discrete a b = elim (Bool-cases (a == b)) [
  | inl e ↦ yes ((eq_iff a b).0 e)
  | inr e ↦ no (λ p. cc (e, (eq_iff a b).1 p))
]

pub data RequestId : Type 0 where
  integer : ℤ → RequestId
  string : String → RequestId

unfoldable pub RequestId-discrete : Discrete RequestId
RequestId-discrete = hlevel (ℤ-discrete, String-discrete)

instance abbrev pub nat_key : Key ℕ
nat_key = record { decide = ℕ_discrete }

instance abbrev pub string_key : Key String
string_key = record { decide = String-discrete }

instance abbrev pub request_key : Key RequestId
request_key = record { decide = RequestId-discrete }

-- `===` on keys.
infix 50 ◌===◌
abbrev pub ◌===◌ {ℓ} : {K : Type ℓ} ⦃k : Key K⦄ → K → K → Bool
◌===◌ ⦃k⦄ a b = elim (k.decide a b) [ yes e ↦ true | no e ↦ false ]
