-- ===== src/Gateway/RedisStore/Shows.antt =====
-- services/gateway/redis_store.py: a hash of the server that holds a dict of the in-memory store.
use mathlib.Core.Option
use nemoclaw_lab_cl.Base.{
  ℕ, ◌+◌, String, false, Option, some, List, [], ◌∷◌, ◌==◌, ok, ◌≡◌, refl, sym, ◌∙◌, arith, eq_iff,
  eq_refl, Option-cases, inl, inr,
}
use nemoclaw_lab_cl.Base.Dict.{
  Dict, get, put, get-put, contains-get, contains, total, values, Distinct,
}
use nemoclaw_lab_cl.Base.Dict.Remove.{remove, get-remove, Distinct-remove, total-remove}
use nemoclaw_lab_cl.Gateway.RedisStore.{Redis, Wire, key, load_each}
use nemoclaw_lab_cl.Gateway.RedisStore.Keys.{key_eq}

-- the sum of a weight over a list: two lists with the same sums hold the same items
unfoldable pub sum {ℓ} : {A : Type ℓ} → (A → ℕ) → List A → ℕ
sum w [] = 0
sum w (x ∷ xs) = w x + sum w xs

pub sum-values : {A : Type 0} (w : A → ℕ) (d : Dict A) → sum w (values d) ≡ total w d
unfolding sum values total
sum-values w [] = refl
sum-values w ((k, v) ∷ d) = omega (arith, sum-values w d)

module _ {Text A : Type 0} (dump : A → Text) where
  -- the hash `h` and the dict `d` hold the same entries
  abbrev pub Same : Dict Text → Dict A → Type 0
  Same h d = (f : String) → get f h ≡ Option.map dump (get f d)

  total-empty : (weight : A → ℕ) (d : Dict A) → Same [] d → total weight d ≡ 0
  unfolding total get
  total-empty weight [] same = refl
  total-empty weight ((k, v) ∷ d) same = absurd (ground (arith, same k, eq_refl k))

  entry :
      (f : String) (raw : Text) (h : Dict Text) (d : Dict A)
      → Same ((f, raw) ∷ h) d
      → (x : A) × (get f d ≡ some x) × (raw ≡ dump x)
  unfolding get
  entry f raw h d same = elim (Option-cases (get f d)) [
    | inl none_there ↦ absurd (ground (arith, same f, none_there, eq_refl f))
    | inr (x, found) ↦ (x, found, ground (arith, same f, found, eq_refl f))
  ]

  Same-tail :
      (f : String) (raw : Text) (h : Dict Text) (d : Dict A)
      → contains f h ≡ false
      → Distinct d
      → Same ((f, raw) ∷ h) d
      → Same h (remove f d)
  unfolding get
  Same-tail f raw h d fresh distinct same g = ground (
    arith,
    same g,
    get-remove f g d distinct,
    contains-get f h,
    fresh,
    eq_iff f g,
    Option-cases (get g h),
  )

  -- Reading every entry of the hash succeeds and gives the items of the dict, in some order.
  pub load_each-Same :
      (load : Text → Option A) (weight : A → ℕ) (h : Dict Text) (d : Dict A)
      → ((x : A) → load (dump x) ≡ some x)
      → Distinct h
      → Distinct d
      → Same h d
      → (xs : List A) × (load_each load h ≡ ok xs) × (sum weight xs ≡ total weight d)
  unfolding load_each sum
  load_each-Same load weight [] d reads dh dd same = ([], refl, sym (total-empty weight d same))
  load_each-Same load weight ((f, raw) ∷ h) d reads (fresh, dh) dd same =
      let (x, found, written) = entry f raw h d same in
      let (xs, loaded, sums) =
        load_each-Same load weight h (remove f d) reads dh (Distinct-remove f d dd)
          (Same-tail f raw h d fresh dd same) in
      (
        x ∷ xs,
        rw (written, reads x, loaded) refl,
        omega (arith, total-remove weight f x d found, sums),
      )

module _ (w : Wire) (r : Redis w.Text) (prefix : String) where
  module _ {A : Type 0} (name : String) (dump : A → w.Text) where
    -- the hash under a name holds the entries of a dict
    abbrev pub Shows : Dict A → r.Server → Type 0
    Shows d s = (f : String) → r.hget (key w r prefix name) f s ≡ Option.map dump (get f d)

    pub Shows-put :
        (f : String) (x : A) (d : Dict A) (s : r.Server)
        → Shows d s
        → Shows (put f x d) (r.hset (key w r prefix name) f (dump x) s)
    Shows-put f x d s h g =
        r.hget-hset (key w r prefix name) f (key w r prefix name) g (dump x) s
        ∙ ground (arith, eq_refl (key w r prefix name), get-put f g x d, h g)

    pub Shows-hset :
        (other f : String) (raw : w.Text) (d : Dict A) (s : r.Server)
        → (other == name) ≡ false
        → Shows d s
        → Shows d (r.hset (key w r prefix other) f raw s)
    Shows-hset other f raw d s apart h g =
        r.hget-hset (key w r prefix other) f (key w r prefix name) g raw s
        ∙ ground (arith, key_eq w r prefix other name, apart, h g)

    pub Shows-rpush :
        (other : String) (raw : w.Text) (d : Dict A) (s : r.Server)
        → Shows d s
        → Shows d (r.rpush (key w r prefix other) raw s)
    Shows-rpush other raw d s h g =
        r.hget-rpush (key w r prefix other) (key w r prefix name) g raw s ∙ h g
