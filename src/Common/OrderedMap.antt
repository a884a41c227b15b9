-- ===== src/Common/OrderedMap.antt =====
-- A JavaScript `Map`: its entries in the order of insertion. Setting a present key keeps its place.
use mathlib.Core.List.{List, [], ◌∷◌, ◌++◌}
use mathlib.Core.Option.{Option, none, some}
use mathlib.Core.Bool.{Bool, true, false}
use mathlib.Core.Path.{◌≡◌, refl}
use mathlib.Core.Logic.{◌≢◌, ite}
use Prim.Native.Nat.{◌+◌, ◌≤◌}
use native.Mathlib.Omega.{arith}
use mokei.Common.Tests.{is_some}
use mokei.Common.Lists.{length}
use mokei.Common.Keys.{Key}

abbrev pub OrderedMap : Type 0 → Type 0 → Type 0
OrderedMap K V = List (K × V)

module _ {K V : Type 0} ⦃k : Key K⦄ where
  unfoldable pub get : OrderedMap K V → K → Option V
  get [] a = none
  get ((b, v) ∷ m) a = ite (k.decide b a) (some v) (get m a)

  unfoldable pub has : OrderedMap K V → K → Bool
  has [] a = false
  has ((b, v) ∷ m) a = ite (k.decide b a) true (has m a)

  unfoldable pub set : OrderedMap K V → K → V → OrderedMap K V
  set [] a v = (a, v) ∷ []
  set ((b, w) ∷ m) a v = ite (k.decide b a) ((b, v) ∷ m) ((b, w) ∷ set m a v)

  unfoldable pub delete : OrderedMap K V → K → OrderedMap K V
  delete [] a = []
  delete ((b, w) ∷ m) a = ite (k.decide b a) m ((b, w) ∷ delete m a)

  -- No key stands twice, as in every map that the operations build.
  abbrev pub HasDistinctKeys : OrderedMap K V → Type 0
  HasDistinctKeys [] = Unit {0}
  HasDistinctKeys ((b, v) ∷ m) = (has m b ≡ false) × HasDistinctKeys m

  pub has-get : (m : OrderedMap K V) (a : K) → has m a ≡ is_some (get m a)
  unfolding has get
  has-get [] a = refl
  has-get ((b, v) ∷ m) a = ground (arith, has-get m a)

  pub get-set :
      (m : OrderedMap K V) (a b : K) (v : V)
      → get (set m a v) b ≡ ite (k.decide a b) (some v) (get m b)
  unfolding get set
  get-set [] a b v = refl
  get-set ((c, w) ∷ m) a b v = ground (arith, get-set m a b v)

  pub has-set :
      (m : OrderedMap K V) (a b : K) (v : V) → has (set m a v) b ≡ ite (k.decide a b) true (has m b)
  unfolding has set
  has-set [] a b v = refl
  has-set ((c, w) ∷ m) a b v = ground (arith, has-set m a b v)

  pub has-delete_le : (m : OrderedMap K V) (a b : K) → has m b ≡ false → has (delete m a) b ≡ false
  unfolding has delete
  has-delete_le [] a b h = refl
  has-delete_le ((c, w) ∷ m) a b h = ground (arith, has-delete_le m a b)

  pub has-delete :
      (m : OrderedMap K V) (a b : K)
      → HasDistinctKeys m
      → has (delete m a) b ≡ ite (k.decide a b) false (has m b)
  unfolding has delete
  has-delete [] a b d = ground arith
  has-delete ((c, w) ∷ m) a b d = ground (arith, has-delete m a b)

  pub get-delete :
      (m : OrderedMap K V) (a b : K)
      → HasDistinctKeys m
      → get (delete m a) b ≡ ite (k.decide a b) none (get m b)
  unfolding get delete has
  get-delete [] a b d = ground arith
  get-delete ((c, w) ∷ m) a b d = ground (arith, get-delete m a b, has-get m a)

  pub set-HasDistinctKeys :
      (m : OrderedMap K V) (a : K) (v : V) → HasDistinctKeys m → HasDistinctKeys (set m a v)
  unfolding set has
  set-HasDistinctKeys [] a v d = (refl, tt)
  set-HasDistinctKeys ((c, w) ∷ m) a v d =
      ground (arith, set-HasDistinctKeys m a v, has-set m a c v)

  pub delete-HasDistinctKeys :
      (m : OrderedMap K V) (a : K) → HasDistinctKeys m → HasDistinctKeys (delete m a)
  unfolding delete has
  delete-HasDistinctKeys [] a d = tt
  delete-HasDistinctKeys ((c, w) ∷ m) a d =
      ground (arith, delete-HasDistinctKeys m a, has-delete_le m a c)

  -- A new key goes to the end.
  pub set_of_new :
      (m : OrderedMap K V) (a : K) (v : V) → has m a ≡ false → set m a v ≡ m ++ (a, v) ∷ []
  unfolding set has
  set_of_new [] a v h = refl
  set_of_new ((c, w) ∷ m) a v h = ground (arith, set_of_new m a v)

  pub length-set_of_new :
      (m : OrderedMap K V) (a : K) (v : V) → has m a ≡ false → length (set m a v) ≡ length m + 1
  unfolding set has
  length-set_of_new [] a v h = omega arith
  length-set_of_new ((c, w) ∷ m) a v h = ground (arith, length-set_of_new m a v)

  pub length-delete :
      (m : OrderedMap K V) (a : K) → has m a ≡ true → length m ≡ length (delete m a) + 1
  unfolding delete has
  length-delete [] a h = cc
  length-delete ((c, w) ∷ m) a h = ground (arith, length-delete m a)

  pub delete_of_missing : (m : OrderedMap K V) (a : K) → has m a ≡ false → delete m a ≡ m
  unfolding delete has
  delete_of_missing [] a h = refl
  delete_of_missing ((c, w) ∷ m) a h = ground (arith, delete_of_missing m a)

  pub length-delete_le : (m : OrderedMap K V) (a : K) → length (delete m a) ≤ length m
  unfolding delete
  length-delete_le [] a = omega arith
  length-delete_le ((c, w) ∷ m) a = ground (arith, length-delete_le m a)

  pub delete-append :
      (m n : OrderedMap K V) (a : K) (v : V) → has m a ≡ false → delete (m ++ (a, v) ∷ n) a ≡ m ++ n
  unfolding delete has
  delete-append [] n a v h = ground arith
  delete-append ((c, w) ∷ m) n a v h = ground (arith, delete-append m n a v)

  pub has-append_left :
      (m n : OrderedMap K V) (a : K) (v : V) → HasDistinctKeys (m ++ (a, v) ∷ n) → has m a ≡ false
  unfolding has
  has-append_left [] n a v d = refl
  has-append_left ((c, w) ∷ m) n a v d =
      ground (arith, has-append_left m n a v, has-middle m n a c v)
    where
      has-middle :
          (m n : OrderedMap K V) (a b : K) (v : V) → has (m ++ (a, v) ∷ n) b ≡ false → a ≢ b
      has-middle [] n a b v h = ground arith
      has-middle ((c, w) ∷ m) n a b v h = ground (arith, has-middle m n a b v)
