-- ===== src/Gateway/RedisStore/Refines/Reads.antt =====
-- services/gateway/redis_store.py: what the reads give of a hash, a list and a token.
use mathlib.Core.Option
use nemoclaw_lab_cl.Base.{
  ℕ, String, Bool, false, Option, none, some, List, [], ◌∷◌, map, ok, ◌≡◌, refl, sym, ap, ◌∙◌,
  is_some,
}
use nemoclaw_lab_cl.Base.Dict.{Dict, get, contains, contains-get, values, Distinct}
use nemoclaw_lab_cl.Gateway.RedisStore.{
  Redis, Wire, key, load_each, load_some, load_list, unraw_token,
}
use nemoclaw_lab_cl.Gateway.RedisStore.Shows.{Shows, sum, sum-values, load_each-Same}
use nemoclaw_lab_cl.Gateway.RedisStore.Ops.{count, map_ok}

pub load_list-map :
    {Text A : Type 0} (dump : A → Text) (load : Text → Option A)
    → ((x : A) → load (dump x) ≡ some x)
    → (xs : List A) → load_list load (map dump xs) ≡ ok xs
unfolding load_list
load_list-map dump load reads [] = refl
load_list-map dump load reads (x ∷ xs) = rw (reads x, load_list-map dump load reads xs) refl

pub load_some-dump :
    {Text A : Type 0} (is_empty : Text → Bool) (dump : A → Text) (load : Text → Option A)
    → ((x : A) → load (dump x) ≡ some x)
    → ((x : A) → is_empty (dump x) ≡ false)
    → (x : Option A) → load_some load is_empty (Option.map dump x) ≡ ok x
unfolding load_some
load_some-dump is_empty dump load reads full none = refl
load_some-dump is_empty dump load reads full (some x) = rw (full x, reads x) refl

is_some-map : {A B : Type 0} (f : A → B) (x : Option A) → is_some (Option.map f x) ≡ is_some x
is_some-map f none = refl
is_some-map f (some x) = refl

pub unraw-token : (w : Wire) (t : Option String) → unraw_token w (Option.map w.raw t) ≡ t
unraw-token w none = refl
unraw-token w (some t) = ap some (w.unraw-raw t)

module _ (w : Wire) (r : Redis w.Text) (prefix : String) where
  module _ {A : Type 0} (name : String) (dump : A → w.Text) (d : Dict A) (s : r.Server) where
    pub hexists-contains :
        (f : String)
        → Shows w r prefix name dump d s
        → r.hexists (key w r prefix name) f s ≡ contains f d
    hexists-contains f shows =
        r.hexists-hget _ f s
        ∙ ap is_some (shows f)
        ∙ is_some-map dump (get f d)
        ∙ sym (contains-get f d)

    pub sum-hgetall :
        (load : w.Text → Option A) (weight : A → ℕ)
        → ((x : A) → load (dump x) ≡ some x)
        → Distinct d
        → Shows w r prefix name dump d s
        → map_ok (λ xs. count (sum weight xs)) (load_each load (r.hgetall (key w r prefix name) s))
          ≡ ok (count (sum weight (values d)))
    sum-hgetall load weight reads distinct shows =
        let (xs, loaded, sums) =
          load_each-Same dump load weight (r.hgetall (key w r prefix name) s) d reads
            (r.hgetall-Distinct _ s) distinct (λ f. r.get-hgetall _ f s ∙ shows f) in
        rw loaded (ap (λ n. ok (count n)) (sums ∙ sym (sum-values weight d)))
