-- ===== src/Gateway/Delete/Sorting.antt =====
-- s3gw/proxy.go: the loop of `deleteObjects`, and the summary of its refusals.
use s3rp.Common.{
  ℕ, suc, ◌+◌, ◌≡◌, ◌⊎◌, inl, inr, refl, Bool, true, false, not, ◌&&◌, ◌||◌, Option, some, List, [],
  ◌∷◌, map, if◌then◌else◌, All, length, Text, Option-cases, arith,
}
use s3rp.Policy.Evaluators.Agree.{is_some}
use s3rp.Store.{Bucket}
use s3rp.Gateway.Access.{DenyReason, denies, deny_reason}
use s3rp.Gateway.Outcome.{returns, bind-returns}
use s3rp.Gateway.Delete.{
  Denial, add_denial, DeleteEntry, ObjectIdentifier, Authorizers, Sorted, names_version,
  object_resource, refusal, object_of, sort_entries,
}

abbrev pub filter {ℓ} : {X : Type ℓ} → (X → Bool) → List X → List X
filter test [] = []
filter test (x ∷ xs) = if test x then x ∷ filter test xs else filter test xs

-- The key and the version of an object of the request, and of one that is sent.
abbrev pub named : DeleteEntry → Text × Text
named o = (o.key, o.version_id)

abbrev pub sent : ObjectIdentifier → Text × Text
sent i = (i.key, i.version_id)

object_of-sent :
    (parse_time : Text → Option ℕ) (o : DeleteEntry) (i : ObjectIdentifier)
    → object_of parse_time o ≡ some i
    → sent i ≡ named o
unfolding object_of
object_of-sent parse_time o i e = ground arith

-- The authorizer that matters, and the bypass, decide an entry.
pub refusal-is_some :
    (b : Bucket) (a : Authorizers) (o : DeleteEntry) (p q : Bool)
    → denies (if names_version o then a.ver else a.del) (object_resource b o) ≡ not p
    → (a.bypass ≡ false) ⊎ (denies a.bypass_auth (object_resource b o) ≡ not q)
    → (a.check_per_object ≡ true) ⊎ ((p && (not a.bypass || q)) ≡ true)
    → is_some (refusal b a o) ≡ not (p && (not a.bypass || q))
unfolding refusal
refusal-is_some b a o p q d y c = ground arith

module _ (parse_time : Text → Option ℕ) (b : Bucket) (a : Authorizers)
    (okay : DeleteEntry → Bool) where
  pub sort_entries-filter :
      (ds : List Denial) (os : List DeleteEntry) (s : Sorted)
      → All (λ o. is_some (refusal b a o) ≡ not (okay o)) os
      → (sort_entries parse_time b a ds os).1 ≡ returns s
      → (map sent s.objects ≡ map named (filter okay os))
        × (s.errors ≡ filter (λ o. not (okay o)) os)
  unfolding sort_entries
  sort_entries-filter ds [] s h e = (ground arith, ground arith)
  sort_entries-filter ds (o ∷ os) s h e = elim (Option-cases (refusal b a o)) [
    | inl free ↦ elim (Option-cases (object_of parse_time o)) [
      | inl malformed ↦ absurd (ground arith)
      | inr (i, made) ↦
          let (s', rest, same) =
            bind-returns (sort_entries parse_time b a ds os).1
              (λ s. returns (record s { objects = i ∷ s.objects })) s (ground arith) in
          let (objects, errors) = sort_entries-filter ds os s' h.1 rest in
          let name = object_of-sent parse_time o i made in
          (ground (arith, h.0), ground (arith, h.0))
    ]
    | inr (auth, refused) ↦
        let more = add_denial (deny_reason auth (object_resource b o)) ds in
        let (s', rest, same) =
          bind-returns (sort_entries parse_time b a more os).1
            (λ s. returns (record s { errors = o ∷ s.errors })) s (ground arith) in
        let (objects, errors) = sort_entries-filter more os s' h.1 rest in
        (ground (arith, h.0), ground (arith, h.0))
  ]

-- The refusals that a summary counts.
abbrev pub total : List Denial → ℕ
total [] = 0
total (d ∷ ds) = d.keys + total ds

add_denial-total : (r : DenyReason) (ds : List Denial) → total (add_denial r ds) ≡ suc (total ds)
unfolding add_denial
add_denial-total r [] = ground arith
add_denial-total r (d ∷ ds) = ground (arith, add_denial-total r ds)

-- Sorting ends without an error if the time of every entry that is not refused can be read, and then
-- the summary counts one refusal more for each entry that it reports as an error.
pub sort_entries-total :
    (parse_time : Text → Option ℕ) (b : Bucket) (a : Authorizers) (ds : List Denial)
    (os : List DeleteEntry)
    → All (λ o. (is_some (refusal b a o) || is_some (object_of parse_time o)) ≡ true) os
    → (s : Sorted) × ((sort_entries parse_time b a ds os).1 ≡ returns s)
      × (total (sort_entries parse_time b a ds os).0 ≡ total ds + length s.errors)
unfolding sort_entries
sort_entries-total parse_time b a ds [] h = (_, refl, ground arith)
sort_entries-total parse_time b a ds (o ∷ os) h = elim (Option-cases (refusal b a o)) [
  | inl free ↦ elim (Option-cases (object_of parse_time o)) [
    | inl malformed ↦ absurd (ground (arith, h.0))
    | inr (i, made) ↦
        let (s, rest, count) = sort_entries-total parse_time b a ds os h.1 in
        (record s { objects = i ∷ s.objects }, ground arith, ground arith)
  ]
  | inr (auth, refused) ↦
      let reason = deny_reason auth (object_resource b o) in
      let (s, rest, count) = sort_entries-total parse_time b a (add_denial reason ds) os h.1 in
      (record s { errors = o ∷ s.errors }, ground arith, ground (arith, add_denial-total reason ds))
]
