-- ===== src/Base/Tables.antt =====
-- A database table as its rows by primary key, in key order of insertion.
use Prim.Native.Nat.{ℕ}
use mathlib.Core.Path.{◌≡◌, refl}
use mathlib.Core.Logic.{◌≢◌}
use mathlib.Core.Bool.{Bool, true, false, not, ◌&&◌, ◌||◌}
use mathlib.Core.Option.{Option, none, some}
use mathlib.Core.List.{List, [], ◌∷◌}
use native.Mathlib.Omega.{arith}
use alpha_pos_server.Base.Tests.{◌==◌, if◌then◌else◌, is_some}

abbrev pub Table : Type 0 → Type 0
Table R = List (ℕ × R)

module _ {R : Type 0} where
  -- `objects.filter(pk=k).first()`
  abbrev pub get : ℕ → Table R → Option R
  get k [] = none
  get k ((j, r) ∷ t) = if k == j then some r else get k t

  -- `row.save()`: an update in place, or an insert.
  abbrev pub put : ℕ → R → Table R → Table R
  put k r [] = (k, r) ∷ []
  put k r (e ∷ t) = if k == e.0 then (k, r) ∷ t else e ∷ put k r t

  -- `objects.filter(p).exists()`
  abbrev pub exists : (ℕ → R → Bool) → Table R → Bool
  exists p [] = false
  exists p ((k, r) ∷ t) = p k r || exists p t

  pub get-put :
      (j k : ℕ) (r : R) (t : Table R) → get j (put k r t) ≡ (if j == k then some r else get j t)
  get-put j k r [] = refl
  get-put j k r (e ∷ t) = ground (arith, get-put j k r t)

  pub get-put_self : (k : ℕ) (r : R) (t : Table R) → get k (put k r t) ≡ some r
  get-put_self k r t = ground (arith, get-put k k r t)

  pub get-put_ne : (j k : ℕ) (r : R) (t : Table R) → j ≢ k → get j (put k r t) ≡ get j t
  get-put_ne j k r t h = ground (arith, get-put j k r t)

  -- No row that is found passes a test that no row passes.
  pub exists-eq-false :
      (p : ℕ → R → Bool) (t : Table R) (k : ℕ) (r : R)
      → exists p t ≡ false
      → get k t ≡ some r
      → p k r ≡ false
  exists-eq-false p [] k r h e = cc
  exists-eq-false p ((j, s) ∷ t) k r h e = ground (arith, exists-eq-false p t k r)

  -- Every row passes the test.
  abbrev pub every : (R → Bool) → Table R → Bool
  every p [] = true
  every p ((k, r) ∷ t) = p r && every p t

  -- `objects.filter(p).update(f)`
  abbrev pub update_where : (R → Bool) → (R → R) → Table R → Table R
  update_where p f [] = []
  update_where p f ((k, r) ∷ t) = (k, if p r then f r else r) ∷ update_where p f t

  -- `row.delete()`
  abbrev pub remove : ℕ → Table R → Table R
  remove k [] = []
  remove k (e ∷ t) = let rest = remove k t in if k == e.0 then rest else e ∷ rest

  -- The key of the first row that passes the test.
  abbrev pub find_key : (R → Bool) → Table R → Option ℕ
  find_key p [] = none
  find_key p ((k, r) ∷ t) = let rest = find_key p t in if p r then some k else rest

  pub get-remove_self : (k : ℕ) (t : Table R) → get k (remove k t) ≡ none
  get-remove_self k [] = refl
  get-remove_self k (e ∷ t) = ground (arith, get-remove_self k t)

  pub get-remove_ne : (j k : ℕ) (t : Table R) → j ≢ k → get j (remove k t) ≡ get j t
  get-remove_ne j k [] h = refl
  get-remove_ne j k (e ∷ t) h = ground (arith, get-remove_ne j k t h)

  pub every-put :
      (p : R → Bool) (k : ℕ) (r : R) (t : Table R)
      → every p t ≡ true
      → p r ≡ true
      → every p (put k r t) ≡ true
  every-put p k r [] h e = ground arith
  every-put p k r ((j, s) ∷ t) h e = ground (arith, every-put p k r t)

  pub every-get :
      (p : R → Bool) (k : ℕ) (r : R) (t : Table R)
      → every p t ≡ true
      → get k t ≡ some r
      → p r ≡ true
  every-get p k r [] h e = cc
  every-get p k r ((j, s) ∷ t) h e = ground (arith, every-get p k r t)

  -- A write of a row keeps the key that a search finds, if the row answers the test as before.
  pub find_key-put :
      (p : R → Bool) (k : ℕ) (r r' : R) (t : Table R)
      → get k t ≡ some r
      → p r' ≡ p r
      → find_key p (put k r' t) ≡ find_key p t
  find_key-put p k r r' [] h e = cc
  find_key-put p k r r' ((j, s) ∷ t) h e = ground (arith, find_key-put p k r r' t)

  -- Of a new row, a search finds the older rows first.
  pub find_key-put_new :
      (p : R → Bool) (k : ℕ) (r : R) (t : Table R)
      → get k t ≡ none
      → p r ≡ false
      → find_key p (put k r t) ≡ find_key p t
  find_key-put_new p k r [] h e = ground arith
  find_key-put_new p k r ((j, s) ∷ t) h e = ground (arith, find_key-put_new p k r t)

  pub find_key-update_where :
      (p q : R → Bool) (f : R → R) (t : Table R)
      → ((r : R) → p (f r) ≡ p r)
      → find_key p (update_where q f t) ≡ find_key p t
  find_key-update_where p q f [] same = refl
  find_key-update_where p q f ((j, s) ∷ t) same =
      ground (arith, find_key-update_where p q f t same, same s)

  pub get-update_where :
      (k : ℕ) (q : R → Bool) (f : R → R) (r : R) (t : Table R)
      → get k t ≡ some r
      → get k (update_where q f t) ≡ some (if q r then f r else r)
  get-update_where k q f r [] e = cc
  get-update_where k q f r ((j, s) ∷ t) e = ground (arith, get-update_where k q f r t)

  pub get-update_where-none :
      (k : ℕ) (q : R → Bool) (f : R → R) (t : Table R)
      → get k t ≡ none
      → get k (update_where q f t) ≡ none
  get-update_where-none k q f [] e = refl
  get-update_where-none k q f ((j, s) ∷ t) e = ground (arith, get-update_where-none k q f t)

  pub every-update_where :
      (p q : R → Bool) (f : R → R) (t : Table R)
      → every p t ≡ true
      → ((r : R) → p r ≡ true → p (f r) ≡ true)
      → every p (update_where q f t) ≡ true
  every-update_where p q f [] h kept = refl
  every-update_where p q f ((j, s) ∷ t) h kept = ground (arith, every-update_where p q f t, kept s)

  pub every-update_all :
      (p q : R → Bool) (f : R → R) (t : Table R)
      → ((r : R) → p (if q r then f r else r) ≡ true)
      → every p (update_where q f t) ≡ true
  every-update_all p q f [] made = refl
  every-update_all p q f ((j, s) ∷ t) made = ground (arith, every-update_all p q f t made, made s)

  -- No two rows have the same key.
  abbrev pub is_distinct : Table R → Bool
  is_distinct [] = true
  is_distinct ((k, r) ∷ t) = not (is_some (get k t)) && is_distinct t

  pub is_distinct-put :
      (k : ℕ) (r : R) (t : Table R) → is_distinct t ≡ true → is_distinct (put k r t) ≡ true
  is_distinct-put k r [] h = refl
  is_distinct-put k r ((j, s) ∷ t) h = ground (arith, is_distinct-put k r t, get-put_ne j k r t)

  pub find_key-get :
      (p : R → Bool) (t : Table R) (k : ℕ) → find_key p t ≡ some k → is_some (get k t) ≡ true
  find_key-get p [] k e = cc
  find_key-get p ((j, s) ∷ t) k e = ground (arith, find_key-get p t k)

  -- The row that a search finds passes its test.
  pub find_key-passes :
      (p : R → Bool) (t : Table R) (k : ℕ) (r : R)
      → is_distinct t ≡ true
      → find_key p t ≡ some k
      → get k t ≡ some r
      → p r ≡ true
  find_key-passes p [] k r h e f = cc
  find_key-passes p ((j, s) ∷ t) k r h e f =
      ground (arith, find_key-passes p t k r, find_key-get p t k)

  -- A written row that passes is the first one, if none passed before.
  pub find_key-put_first :
      (p : R → Bool) (k : ℕ) (r : R) (t : Table R)
      → find_key p t ≡ none
      → p r ≡ true
      → find_key p (put k r t) ≡ some k
  find_key-put_first p k r [] h e = ground arith
  find_key-put_first p k r ((j, s) ∷ t) h e = ground (arith, find_key-put_first p k r t)

  pub put-put_same : (k : ℕ) (r r' : R) (t : Table R) → put k r' (put k r t) ≡ put k r' t
  put-put_same k r r' [] = ground arith
  put-put_same k r r' ((j, s) ∷ t) = ground (arith, put-put_same k r r' t)

  pub put-get : (k : ℕ) (r : R) (t : Table R) → get k t ≡ some r → put k r t ≡ t
  put-get k r [] h = cc
  put-get k r ((j, s) ∷ t) h = ground (arith, put-get k r t)
