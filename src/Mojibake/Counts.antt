-- ===== src/Mojibake/Counts.antt =====
-- What the counters of a scan count, and their bounds.
use mathlib.Core.Bool.{false≢true}
use mathlib.Core.List.{append-nil, append_assoc}
use agentic_memory_stack_for.Prelude.{
  ℕ, zero, suc, ◌+◌, ◌-◌, ◌*◌, ◌≤◌, ◌<◌, String, ◌≡◌, refl, sym, ap, ◌∙◌, arith, Bool, true, false,
  ◌&&◌, not, Option, none, some, List, [], ◌∷◌, ◌++◌, map, ltb, length, length-append, filter,
  Bool-cases, Option-cases, inl, inr, take, length-take, length-take-le-length,
}
use agentic_memory_stack_for.Mojibake.Scan.{
  Point, Scan, Scroll, scan_from, scan_point, scan_payloads, any_mojibake, max_samples, no_scan,
  pages, page_size, page_cap, mojibake_health,
}

-- A point that counts as a hit.
abbrev is_hit : Point → Bool
is_hit p = not p.mojibake_ok && any_mojibake p

abbrev exempt : Point → Bool
exempt p = p.mojibake_ok

take-suc {ℓ} :
    {A : Type ℓ} (n : ℕ) (x : A) (xs : List A) → 0 < n → take n (x ∷ xs) ≡ x ∷ take (n - 1) xs
take-suc zero x xs h = absurd (omega arith)
take-suc (suc n) x xs h = let e : suc n - 1 ≡ n = omega arith in rw e refl

-- A sample that is taken while there is room.
take_room {ℓ} :
    {A : Type ℓ} (n : ℕ) (xs : List A) (x : A) (ys : List A)
    → length xs < n
    → (xs ++ (x ∷ [])) ++ take (n - length (xs ++ (x ∷ []))) ys
      ≡ xs ++ take (n - length xs) (x ∷ ys)
take_room n xs x ys h =
    let e : n - length (xs ++ (x ∷ [])) ≡ n - length xs - 1 =
      omega (arith, length-append xs (x ∷ [])) in
    append_assoc xs (x ∷ []) _
    ∙ ap (λ k. xs ++ (x ∷ take k ys)) e
    ∙ ap (◌++◌ xs) (sym (take-suc (n - length xs) x ys (omega arith)))

take_full {ℓ} :
    {A : Type ℓ} (n : ℕ) (xs ys zs : List A)
    → n ≤ length xs
    → xs ++ take (n - length xs) ys ≡ xs ++ take (n - length xs) zs
take_full n xs ys zs h = let e : n - length xs ≡ 0 = omega arith in rw e refl

scan_from-counts :
    (ps : List Point) (s : Scan)
    → let t = scan_from ps s in
      (t.scanned ≡ s.scanned + length ps)
      × (t.hits ≡ s.hits + length (filter is_hit ps))
      × (t.allowlisted ≡ s.allowlisted + length (filter exempt ps))
unfolding scan_from scan_point filter
scan_from-counts [] s = omega arith
scan_from-counts (p ∷ ps) s = ground (arith, scan_from-counts ps (scan_point p s))

take_nil {ℓ} : {A : Type ℓ} (n : ℕ) (xs : List A) → xs ≡ xs ++ take n []
take_nil zero xs = sym (append-nil xs)
take_nil (suc n) xs = sym (append-nil xs)

-- The samples with the ids `rest` of the hits to come.
abbrev filled : List String → List String → List String
filled ids rest = ids ++ take (max_samples - length ids) rest

scan_point-hit :
    (p : Point) (s : Scan) (rest : List String)
    → is_hit p ≡ true
    → filled (scan_point p s).sample_ids rest ≡ filled s.sample_ids (p.id ∷ rest)
unfolding scan_point
scan_point-hit p s rest e = elim (Bool-cases (ltb (length s.sample_ids) max_samples)) [
  | inl f ↦
      let g : (scan_point p s).sample_ids ≡ s.sample_ids ++ (p.id ∷ []) = ground arith in
      ap (λ ids. filled ids rest) g ∙ take_room max_samples s.sample_ids p.id rest (ground arith)
  | inr f ↦
      let g : (scan_point p s).sample_ids ≡ s.sample_ids = ground arith in
      ap (λ ids. filled ids rest) g
      ∙ take_full max_samples s.sample_ids rest (p.id ∷ rest) (ground arith)
]

scan_point-other :
    (p : Point) (s : Scan) → is_hit p ≡ false → (scan_point p s).sample_ids ≡ s.sample_ids
unfolding scan_point
scan_point-other p s e = ground arith

scan_from-sample_ids :
    (ps : List Point) (s : Scan)
    → (scan_from ps s).sample_ids ≡ filled s.sample_ids (map (λ p. p.id) (filter is_hit ps))
unfolding scan_from filter
scan_from-sample_ids [] s = take_nil (max_samples - length s.sample_ids) s.sample_ids
scan_from-sample_ids (p ∷ ps) s = elim (Bool-cases (is_hit p)) [
  | inl e ↦ rw e (
      scan_from-sample_ids ps (scan_point p s)
      ∙ scan_point-hit p s (map (λ p. p.id) (filter is_hit ps)) e)
  | inr e ↦ rw e (
      scan_from-sample_ids ps (scan_point p s)
      ∙ ap (λ ids. filled ids (map (λ p. p.id) (filter is_hit ps))) (scan_point-other p s e))
]

scan_payloads-counts :
    (ps : List Point)
    → let s = scan_payloads ps in
      (s.scanned ≡ length ps)
      × (s.hits ≡ length (filter is_hit ps))
      × (s.allowlisted ≡ length (filter exempt ps))
      × (s.sample_ids ≡ take max_samples (map (λ p. p.id) (filter is_hit ps)))
unfolding scan_payloads
scan_payloads-counts ps =
    let c = scan_from-counts ps no_scan in
    (omega (arith, c), omega (arith, c), omega (arith, c), scan_from-sample_ids ps no_scan)

hits_apart : (ps : List Point) → length (filter is_hit ps) + length (filter exempt ps) ≤ length ps
unfolding filter
hits_apart [] = omega arith
hits_apart (p ∷ ps) = ground (arith, hits_apart ps)

length-ids : (ps : List Point) → length (map (λ p. p.id) ps) ≡ length ps
length-ids [] = refl
length-ids (p ∷ ps) = omega (arith, length-ids ps)

scan_payloads_bounds :
    (ps : List Point)
    → let s = scan_payloads ps in
      (s.hits + s.allowlisted ≤ s.scanned)
      × (length s.sample_ids ≤ max_samples)
      × (length s.sample_ids ≤ s.hits)
scan_payloads_bounds ps =
    let c = scan_payloads-counts ps in
    let ids = map (λ (p : Point). p.id) (filter is_hit ps) in
    let l = length-take max_samples ids in
    let n = ap length c.3 in
    (
      omega (arith, c, hits_apart ps),
      omega (arith, l, n),
      omega (arith, c, n, length-take-le-length max_samples ids, length-ids (filter is_hit ps)),
    )

-- A scroll returns at most as many points as it is asked for.
abbrev pub IsPaged : Scroll → Type 0
IsPaged scroll =
    (offset : Option String) (limit : ℕ) (points : List Point) (next : Option String)
    → scroll offset limit ≡ some (points, next)
    → length points ≤ limit

length-pages :
    (scroll : Scroll) (n : ℕ) (offset : Option String)
    → IsPaged scroll
    → length (pages scroll n offset).0 ≤ n * page_size
unfolding pages
length-pages scroll zero offset h = omega arith
length-pages scroll (suc n) offset h = elim (Option-cases (scroll offset page_size)) [
  | inl e ↦ rw (e, pages) (omega arith)
  | inr ((points, none), e) ↦ rw (e, pages) (omega (arith, h offset page_size points none e))
  | inr ((points, some at_next), e) ↦
      rw (e, pages)
        (omega (
          arith,
          h offset page_size points (some at_next) e,
          length-pages scroll n (some at_next) h,
          length-append points (pages scroll n (some at_next)).0,
        ))
]

-- When a page has at most as many points as were asked for, the check is ok, scans at most fifty
-- pages of a thousand points, counts no more hits and exemptions together than points scanned,
-- shows at most five samples and no more of them than hits, and counts nothing after an error.
pub mojibake_health_bounds :
    (scroll : Scroll)
    → IsPaged scroll
    → let h = mojibake_health scroll in
      (h.ok ≡ true)
      × (h.scan.scanned ≤ page_cap * page_size)
      × (h.scan.hits + h.scan.allowlisted ≤ h.scan.scanned)
      × (length h.scan.sample_ids ≤ max_samples)
      × (length h.scan.sample_ids ≤ h.scan.hits)
      × (h.error ≡ true → h.scan ≡ no_scan)
unfolding mojibake_health
mojibake_health_bounds scroll h = elim (Bool-cases (pages scroll page_cap none).1) [
  | inl e ↦ rw e (refl, omega arith, omega arith, omega arith, omega arith, λ _. refl)
  | inr e ↦
      let ps = (pages scroll page_cap none).0 in
      let c = scan_payloads-counts ps in
      let b = scan_payloads_bounds ps in
      rw e (
        refl,
        omega (arith, c, length-pages scroll page_cap none h),
        b.0,
        b.1,
        b.2,
        λ f. absurd (false≢true f),
      )
]
