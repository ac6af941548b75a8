-- ===== src/Orchestrator/Rotation/Fresh.antt =====
-- services/orchestrator/rotation.py: no immediate repeats.
use nemoclaw_lab_cl.Base.{
  String, Bool, true, Option, none, some, List, [], ◌∷◌, not, elem, keep, ◌≡◌, ◌≢◌, refl, sym, ◌∙◌,
  ◌&&◌, ◌↔◌, arith, eq_iff, Bool-cases, inl, inr,
}
use nemoclaw_lab_cl.Orchestrator.Rotation.{RotationPolicy, is_last, candidates, eligible, next}

elem-keep :
    (p : String → Bool) (x : String) (xs : List String) → elem x (keep p xs) ≡ (elem x xs && p x)
unfolding elem keep
elem-keep p x [] = refl
elem-keep p x (y ∷ ys) = elim (Bool-cases (p y)) [
  | inl e ↦ rw (e, elem) (ground (arith, elem-keep p x ys, eq_iff x y, e))
  | inr e ↦ rw (e, elem) (ground (arith, elem-keep p x ys, eq_iff x y, e))
]

is_last_iff : (l : Option String) (x : String) → (is_last l x ≡ true) ↔ (some x ≡ l)
unfolding is_last
is_last_iff none x = ground arith
is_last_iff (some l) x = ground (arith, eq_iff x l)

module _ (choice : List String → String) (p : RotationPolicy)
    (picks : (x : String) (xs : List String) → elem (choice (x ∷ xs)) (x ∷ xs) ≡ true) where
  -- a choice among candidates, of which there is one, is a candidate
  eligible_candidate :
      (other : String) (cs : List String)
      → elem other cs ≡ true
      → elem (choice (eligible p cs)) cs ≡ true
  unfolding eligible elem
  eligible_candidate other [] has = ground arith
  eligible_candidate other (c ∷ cs) has = picks c cs

  -- If the pack has a scenario other than the last one, `next` returns a scenario of the pack other
  -- than the last one, for every `choice` that picks an element of a non-empty list, and remembers it.
  pub next_fresh :
      (other : String)
      → elem other p.ids ≡ true
      → some other ≢ p.last
      → (elem (next choice p).0 p.ids ≡ true)
        × (some (next choice p).0 ≢ p.last)
        × ((next choice p).1.last ≡ some (next choice p).0)
  unfolding next candidates keep
  next_fresh other has differs =
      let chosen = choice (eligible p (candidates p)) in
      let offered : elem other (candidates p) ≡ true =
        elem-keep (λ sid. not (is_last p.last sid)) other p.ids
        ∙ ground (arith, is_last_iff p.last other, has, differs) in
      let got : elem chosen (candidates p) ≡ true =
        eligible_candidate other (candidates p) offered in
      let split : (elem chosen p.ids && not (is_last p.last chosen)) ≡ true =
        sym (elem-keep (λ sid. not (is_last p.last sid)) chosen p.ids) ∙ got in
      (ground (arith, split), λ e. ground (arith, split, is_last_iff p.last chosen, e), refl)
