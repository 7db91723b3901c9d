-- ===== src/Candidates/Search/Follow.antt =====
-- One turn of `search`: the members that the loop over the edges makes.
use work_trace.Prelude.{ℕ, String, true, false, ◌≡◌, some, List, [], ◌∷◌, if-split, arith, inl, inr}
use mathlib.Core.Path.{subst, subst⁻¹}
use work_trace.Prelude.Texts.{eq_refl, elem, elem-append}
use work_trace.Candidates.Objects.{Observed, Reference, structural, find_object, is_boundary}
use work_trace.Candidates.Search.{
  Edge, Search, add_context, add_member, visit, visit_all, is_skipped,
}
use work_trace.Candidates.Search.Path.{IsAmong, Joins}

module _ (objects : List Observed) (references : List Reference) where
  -- A member stays a member.
  visit-member :
      (depth : ℕ) (e : Edge) (s : Search) (x : String)
      → elem x s.members ≡ true
      → elem x (visit objects depth e s).members ≡ true
  unfolding visit add_member add_context
  visit-member depth e s x h = ground (arith, h, elem-append x s.members (e.target ∷ []))

  visit_all-member :
      (depth : ℕ) (es : List Edge) (s : Search) (x : String)
      → elem x s.members ≡ true
      → elem x (visit_all objects depth es s).members ≡ true
  unfolding visit_all
  visit_all-member depth [] s x h = h
  visit_all-member depth (e ∷ es) s x h =
      let next = visit objects depth e s in
      let kept = visit-member depth e s x h in
      if-split (λ r. elem x r.members ≡ true) next.overflow next (visit_all objects depth es next)
        (λ o. kept) (λ o. visit_all-member depth es next x kept)

  -- A followed edge makes its target a member.
  visit-Joins :
      (depth : ℕ) (e : Edge) (s : Search) (o : Observed)
      → find_object e.target objects ≡ some o
      → is_skipped e ≡ false
      → elem e.relationship structural ≡ true
      → is_boundary o ≡ false
      → elem e.target (visit objects depth e s).members ≡ true
  unfolding visit add_member elem
  visit-Joins depth e s o current followed structural inside = ground (
    arith,
    current,
    followed,
    structural,
    inside,
    eq_refl e.target,
    elem-append e.target s.members (e.target ∷ []),
  )

  joined-member :
      (depth : ℕ) (e : Edge) (s : Search) (id target : String)
      (j : Joins objects references id target)
      → j.edge ≡ e
      → elem target (visit objects depth e s).members ≡ true
  joined-member depth e s id target j same =
      let current = subst⁻¹ (λ t. find_object t objects ≡ some j.object) j.is_target j.is_current in
      let found =
        visit-Joins depth j.edge s j.object current j.is_followed j.is_structural j.is_inside in
      let at_target =
        subst (λ t. elem t (visit objects depth j.edge s).members ≡ true) j.is_target found in
      subst (λ f. elem target (visit objects depth f s).members ≡ true) same at_target

  visit_all-more :
      (depth : ℕ) (e : Edge) (es : List Edge) (s : Search)
      → (visit_all objects depth (e ∷ es) s).overflow ≡ false
      → visit_all objects depth (e ∷ es) s ≡ visit_all objects depth es (visit objects depth e s)
  unfolding visit_all
  visit_all-more depth e es s o = ground (arith, o)

  pub visit_all-Joins :
      (depth : ℕ) (es : List Edge) (s : Search) (id target : String)
      (j : Joins objects references id target)
      → IsAmong j.edge es
      → (visit_all objects depth es s).overflow ≡ false
      → elem target (visit_all objects depth es s).members ≡ true
  visit_all-Joins depth [] s id target j among o = elim among [ ]
  visit_all-Joins depth (e ∷ es) s id target j among o =
      let next = visit objects depth e s in
      let same = visit_all-more depth e es s o in
      subst⁻¹ (λ r. elem target r.members ≡ true) same
        (elim among [
          | inl here ↦
              visit_all-member depth es next target (joined-member depth e s id target j here)
          | inr later ↦
              visit_all-Joins depth es next id target j later
                (subst (λ r. r.overflow ≡ false) same o)
        ])
