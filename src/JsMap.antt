-- ===== src/JsMap.antt =====
-- The built-in `Map` with string keys: the entries in the order of insertion.
use nap.Base.{◌≡◌, refl, Bool, true, Option, none, some, List, [], ◌∷◌, arith, if◌then◌else◌}
use nap.Text.{Text, ◌==◌}

abbrev pub JsMap {ℓ} : Type ℓ → Type ℓ
JsMap V = List (Text × V)

module _ {ℓ} {V : Type ℓ} where
  unfoldable pub get : Text → JsMap V → Option V
  get k [] = none
  get k ((j, v) ∷ m) = if j == k then some v else get k m

  -- A present key keeps its place.
  unfoldable pub set : Text → V → JsMap V → JsMap V
  set k v [] = (k, v) ∷ []
  set k v ((j, w) ∷ m) = if j == k then (j, v) ∷ m else (j, w) ∷ set k v m

  unfoldable pub delete : Text → JsMap V → JsMap V
  delete k [] = []
  delete k ((j, w) ∷ m) = let rest = delete k m in if j == k then rest else (j, w) ∷ rest

  -- A loop over the map that deletes the entries whose value fails a test.
  unfoldable pub retain : (V → Bool) → JsMap V → JsMap V
  retain p [] = []
  retain p ((j, w) ∷ m) = let rest = retain p m in if p w then (j, w) ∷ rest else rest

  pub get-set :
      (k j : Text) (v : V) (m : JsMap V) → get j (set k v m) ≡ (if k == j then some v else get j m)
  unfolding get set
  get-set k j v [] = refl
  get-set k j v ((i, w) ∷ m) = ground (arith, get-set k j v m)

  pub get-set_self : (k : Text) (v : V) (m : JsMap V) → get k (set k v m) ≡ some v
  get-set_self k v m = ground (arith, get-set k k v m)

  pub get-delete :
      (k j : Text) (m : JsMap V) → get j (delete k m) ≡ (if k == j then none else get j m)
  unfolding get delete
  get-delete k j [] = ground arith
  get-delete k j ((i, w) ∷ m) = ground (arith, get-delete k j m)

  -- What passes the test stays.
  pub get-retain_kept :
      (p : V → Bool) (k : Text) (m : JsMap V) (v : V)
      → get k m ≡ some v
      → p v ≡ true
      → get k (retain p m) ≡ some v
  unfolding get retain
  get-retain_kept p k [] v h t = h
  get-retain_kept p k ((j, w) ∷ m) v h t = ground (arith, get-retain_kept p k m v)

  -- What is left passes the test.
  pub get-retain_passes :
      (p : V → Bool) (k : Text) (m : JsMap V) (v : V) → get k (retain p m) ≡ some v → p v ≡ true
  unfolding get retain
  get-retain_passes p k [] v h = cc
  get-retain_passes p k ((j, w) ∷ m) v h = ground (arith, get-retain_passes p k m v)

  pub get-retain-none :
      (p : V → Bool) (k : Text) (m : JsMap V) → get k m ≡ none → get k (retain p m) ≡ none
  unfolding get retain
  get-retain-none p k [] h = refl
  get-retain-none p k ((j, w) ∷ m) h = ground (arith, get-retain-none p k m)

  -- Each key stands once.
  abbrev pub IsMap : JsMap V → Type ℓ
  IsMap [] = Unit
  IsMap ((k, v) ∷ m) = (get k m ≡ none) × IsMap m

  pub set-IsMap : (k : Text) (v : V) (m : JsMap V) → IsMap m → IsMap (set k v m)
  unfolding get set
  set-IsMap k v [] h = (refl, tt)
  set-IsMap k v ((j, w) ∷ m) h = ground (arith, get-set k j v m, set-IsMap k v m h.1)

  pub delete-IsMap : (k : Text) (m : JsMap V) → IsMap m → IsMap (delete k m)
  unfolding delete
  delete-IsMap k [] h = tt
  delete-IsMap k ((j, w) ∷ m) h = ground (arith, get-delete k j m, delete-IsMap k m h.1)

  pub retain-IsMap : (p : V → Bool) (m : JsMap V) → IsMap m → IsMap (retain p m)
  unfolding retain
  retain-IsMap p [] h = tt
  retain-IsMap p ((j, w) ∷ m) h = ground (arith, get-retain-none p j m, retain-IsMap p m h.1)

  -- The value, if it passes the test.
  abbrev pub passing : (V → Bool) → Option V → Option V
  passing p none = none
  passing p (some v) = if p v then some v else none

  pub get-retain :
      (p : V → Bool) (k : Text) (m : JsMap V) → IsMap m → get k (retain p m) ≡ passing p (get k m)
  unfolding get retain
  get-retain p k [] h = refl
  get-retain p k ((j, w) ∷ m) h = ground (arith, get-retain p k m h.1, get-retain-none p k m)
