-- ===== src/Sigv4/Canonical/Whitespace.antt =====
-- sigv4/canonical.go: what `collapseWhitespace` makes of a header's value.
use s3rp.Common.{
  ℕ, ◌≡◌, inl, inr, refl, sym, subst, true, false, not, ◌&&◌, [], ◌∷◌, Text, trim_space,
  contains_byte, Bool-cases, arith,
}
use s3rp.Sigv4.Canonical.{is_blank, collapse_runs, has_double_space, collapse_whitespace}

-- A text without tabs, and without two spaces next to each other.
abbrev pub IsCollapsed : Text → Type 0
IsCollapsed s = (has_double_space s ≡ false) × (contains_byte 9 s ≡ false)

-- Neither, behind a space.
abbrev FollowsSpace : Text → Type 0
FollowsSpace s = (has_double_space (32 ∷ s) ≡ false) × (contains_byte 9 s ≡ false)

after_other : (c : ℕ) (s : Text) → is_blank c ≡ false → IsCollapsed s → IsCollapsed (c ∷ s)
unfolding has_double_space contains_byte
after_other c [] h p = (refl, ground arith)
after_other c (d ∷ s) h p = (ground (arith, p.0), ground (arith, p.1))

tail_double : (c : ℕ) (s : Text) → has_double_space (c ∷ s) ≡ false → has_double_space s ≡ false
unfolding has_double_space
tail_double c [] h = refl
tail_double c (d ∷ s) h = ground arith

after_space : (s : Text) → FollowsSpace s → IsCollapsed (32 ∷ s)
unfolding has_double_space contains_byte
after_space s p = (p.0, ground (arith, p.1))

follows_other : (c : ℕ) (s : Text) → is_blank c ≡ false → IsCollapsed (c ∷ s) → FollowsSpace (c ∷ s)
unfolding has_double_space contains_byte
follows_other c s h p = (ground (arith, p.0), p.1)

collapse_runs-Both :
    (s : Text) → IsCollapsed (collapse_runs false s) × FollowsSpace (collapse_runs true s)
unfolding collapse_runs has_double_space contains_byte
collapse_runs-Both [] = ((refl, refl), (refl, refl))
collapse_runs-Both (c ∷ s) =
    let (p, q) = collapse_runs-Both s in
    elim (Bool-cases (is_blank c)) [
      | inl blank ↦ rw blank (after_space (collapse_runs true s) q, q)
      | inr other ↦
          let x = after_other c (collapse_runs false s) other p in
          rw other (x, follows_other c (collapse_runs false s) other x)
    ]

-- The loop changes nothing where there is nothing to collapse.
collapse_runs_id :
    (s : Text)
    → (IsCollapsed s → collapse_runs false s ≡ s) × (FollowsSpace s → collapse_runs true s ≡ s)
unfolding collapse_runs has_double_space contains_byte
collapse_runs_id [] = (λ p. refl, λ q. refl)
collapse_runs_id (c ∷ s) =
    let (f, g) = collapse_runs_id s in
    (
      λ p. elim (Bool-cases (is_blank c)) [
        | inl blank ↦
            let space : c ≡ 32 = ground (arith, p.1) in
            let after : collapse_runs true s ≡ s =
              g (subst (λ x. has_double_space (x ∷ s) ≡ false) space p.0, ground (arith, p.1)) in
            rw blank (ground (arith, space, after))
        | inr other ↦
            let after : collapse_runs false s ≡ s = f (tail_double c s p.0, ground (arith, p.1)) in
            rw other (ground (arith, after))
      ],
      λ q. elim (Bool-cases (is_blank c)) [
        | inl blank ↦ absurd (ground (arith, q.0, q.1))
        | inr other ↦
            let after : collapse_runs false s ≡ s =
              f (tail_double c s (tail_double 32 (c ∷ s) q.0), ground (arith, q.1)) in
            rw other (ground (arith, after))
      ],
    )

-- `collapseWhitespace` is its loop on the trimmed value, also where it returns early; and the result
-- has no tab, nor two spaces next to each other.
pub collapse_whitespace_lem :
    (v : Text)
    → (collapse_whitespace v ≡ collapse_runs false (trim_space v))
      × IsCollapsed (collapse_whitespace v)
unfolding collapse_whitespace
collapse_whitespace_lem v =
    elim (Bool-cases
      (not (has_double_space (trim_space v)) && not (contains_byte 9 (trim_space v)))) [
        | inl early ↦
            let plain : IsCollapsed (trim_space v) = (ground arith, ground arith) in
            rw early (sym ((collapse_runs_id (trim_space v)).0 plain), plain)
        | inr late ↦ rw late (refl, (collapse_runs-Both (trim_space v)).0)
      ]
