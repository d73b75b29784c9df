-- ===== src/Suite/Segments.antt =====
-- go/src/test-suite/packages.go, SegmentListPackages: the share of each client of the test run.
--
-- A list's capacity is left open: a slice that leaves the list is none, where Go panics or shows what is
-- behind the list's end.
use package_index.Base.{
  ℕ, zero, suc, ◌+◌, ◌∙◌, sym, ltb, leb, leb_of_le, ◌&&◌, ◌*◌, ◌-◌, ◌/◌, ◌≤◌, ◌<◌, min, true,
  Option, none, some, List, [], subst, ◌∷◌, ◌++◌, ◌≡◌, ◌↔◌, refl, ap, All, length, take, drop,
  take-append-drop, length-take, length-drop, append-nil, if◌then◌else◌, Bool-cases, inl, inr,
  arith,
}
use native.Mathlib.Nat.{min-zero, mul-div-le, le-div_iff_mul-le}
use package_index.Base.Int64.{int64_bound, is_pos, is_pos_lem, is_pos_bounds}

-- `a / b`, which panics at `b = 0`.
unfoldable pub int_div : ℕ → ℕ → Option ℕ
int_div a zero = none
int_div a (suc b) = some (a / suc b)

module _ {ℓ} {A : Type ℓ} where
  -- `full[beginning:end]`
  unfoldable pub slice : List A → ℕ → ℕ → Option (List A)
  slice full beginning end =
      if leb beginning end && leb end (length full)
      then some (take (end - beginning) (drop beginning full))
      else none

  -- `result = append(result, slice)`, with what the rest of the loop appends.
  abbrev pub append_slice : Option (List A) → Option (List (List A)) → Option (List (List A))
  append_slice none later = none
  append_slice (some s) none = none
  append_slice (some s) (some later) = some (s ∷ later)

  -- `if beginning < fullListSize { result = append(result, fullList[beginning:]) }`
  unfoldable pub last_segment : List A → ℕ → Option (List (List A))
  last_segment full beginning =
      let last = append_slice (slice full beginning (length full)) (some []) in
      if ltb beginning (length full) then last else some []

  -- The loop, with the rounds that are left.
  unfoldable pub segments : ℕ → ℕ → List A → ℕ → Option (List (List A))
  segments zero size full beginning = last_segment full beginning
  segments (suc n) size full beginning =
      let later = segments n size full (beginning + size) in
      append_slice (slice full beginning (beginning + size)) later

  unfoldable pub with_size : ℕ → List A → Option ℕ → Option (List (List A))
  with_size n full none = none
  with_size n full (some size) = segments (n - 1) size full 0

  -- No result is a panic. `max` is an `int`, as its bit pattern.
  unfoldable pub segment_list_packages : List A → ℕ → Option (List (List A))
  segment_list_packages full max =
      let n = min max (length full) in
      if is_pos max then with_size n full (int_div (length full) n) else some (full ∷ [])

int_div_pos : (a n : ℕ) → 0 < n → int_div a n ≡ some (a / n)
unfolding int_div
int_div_pos a zero h = elim h [ ]
int_div_pos a (suc n) h = refl

module _ {ℓ} {A : Type ℓ} where
  unfoldable pub flatten : List (List A) → List A
  flatten [] = []
  flatten (s ∷ ss) = s ++ flatten ss

  -- `ss` cuts `full` into `n` segments in its order, each with at least `size` elements.
  abbrev pub IsPartition : List A → ℕ → ℕ → List (List A) → Type ℓ
  IsPartition full n size ss = (flatten ss ≡ full) × (length ss ≡ n) × All (λ s. size ≤ length s) ss

  -- The segments of a list that is long enough.
  unfoldable last_cut : List A → List (List A)
  last_cut [] = []
  last_cut (x ∷ xs) = (x ∷ xs) ∷ []

  unfoldable cuts : ℕ → ℕ → List A → List (List A)
  cuts zero size rest = last_cut rest
  cuts (suc n) size rest = take size rest ∷ cuts n size (drop size rest)

  drop-nil : (n : ℕ) → ◌≡◌ {A = List A} (drop n []) []
  drop-nil zero = refl
  drop-nil (suc n) = refl

  drop-drop : (b n : ℕ) (xs : List A) → drop n (drop b xs) ≡ drop (b + n) xs
  drop-drop zero n xs = ap (λ m. drop m xs) (omega arith)
  drop-drop (suc b) n [] = drop-nil n ∙ sym (drop-nil (suc b + n))
  drop-drop (suc b) n (x ∷ xs) =
      let e : suc (b + n) ≡ suc b + n = omega arith in
      drop-drop b n xs ∙ ap (λ m. drop m (x ∷ xs)) e

  take-length : (xs : List A) → take (length xs) xs ≡ xs
  take-length [] = refl
  take-length (x ∷ xs) = ap (◌∷◌ x) (take-length xs)

  slice-inside :
      (full : List A) (b n : ℕ)
      → b + n ≤ length full
      → slice full b (b + n) ≡ some (take n (drop b full))
  unfolding slice
  slice-inside full b n h =
      rw (leb_of_le b (b + n) (omega arith), leb_of_le (b + n) (length full) h)
        (ap (λ m. some (take m (drop b full))) (omega arith))

  last_cut-pos : (xs : List A) → 0 < length xs → last_cut xs ≡ xs ∷ []
  unfolding last_cut
  last_cut-pos [] h = elim h [ ]
  last_cut-pos (x ∷ xs) h = refl

  last_segment-last_cut :
      (full : List A) (b : ℕ)
      → b < length full
      → last_segment full b ≡ some (last_cut (drop b full))
  unfolding last_segment
  last_segment-last_cut full b h =
      let rest = drop b full in
      let size : length rest ≡ length full - b = length-drop b full in
      let whole : slice full b (length full) ≡ some rest =
        subst (λ e. slice full b e ≡ some (take (length rest) rest)) (omega (arith, size, h))
          (slice-inside full b (length rest) (omega (arith, size, h)))
        ∙ ap some (take-length rest) in
      let below : ltb b (length full) ≡ true = ground (arith, h) in
      rw (below, whole) (ap some (sym (last_cut-pos rest (omega (arith, size, h)))))

  -- Every slice of the loop lies inside the list.
  segments-cuts :
      (n size : ℕ) (full : List A) (b : ℕ)
      → 0 < size
      → b + suc n * size ≤ length full
      → segments n size full b ≡ some (cuts n size (drop b full))
  unfolding segments cuts
  segments-cuts zero size full b pos h = last_segment-last_cut full b (omega arith)
  segments-cuts (suc n) size full b pos h =
      let later =
        segments-cuts n size full (b + size) pos (omega arith)
        ∙ ap (λ xs. some (cuts n size xs)) (sym (drop-drop b size full)) in
      rw (slice-inside full b size (omega arith), later) refl

  last_cut-IsPartition :
      (size : ℕ) (rest : List A)
      → 0 < length rest
      → size ≤ length rest
      → IsPartition rest 1 size (last_cut rest)
  unfolding last_cut flatten
  last_cut-IsPartition size [] h k = elim h [ ]
  last_cut-IsPartition size (x ∷ xs) h k = (append-nil (x ∷ xs), refl, (k, tt))

  cuts-IsPartition :
      (n size : ℕ) (rest : List A)
      → 0 < size
      → suc n * size ≤ length rest
      → IsPartition rest (suc n) size (cuts n size rest)
  unfolding cuts flatten
  cuts-IsPartition zero size rest h k = last_cut-IsPartition size rest (omega arith) (omega arith)
  cuts-IsPartition (suc n) size rest h k =
      let later =
        cuts-IsPartition n size (drop size rest) h (omega (arith, length-drop size rest)) in
      (
        rw (later.0, take-append-drop size rest),
        ap suc later.1,
        (omega (arith, length-take size rest), later.2),
      )

  -- With `n` at least 1, the length divided by `n` fits `n` times.
  share_fits :
      (n : ℕ) (full : List A)
      → 0 < n
      → n ≤ length full
      → (0 < length full / n) × (suc (n - 1) * (length full / n) ≤ length full)
  share_fits n full h k = (
    (le-div_iff_mul-le {x = 1} {y = length full} h).1 (omega arith),
    subst (λ m. m * (length full / n) ≤ length full) (omega arith) (mul-div-le (length full) n),
  )

  segment_list_packages_pos :
      (full : List A) (max : ℕ)
      → 0 < max
      → max < int64_bound
      → 0 < length full
      → segment_list_packages full max
        ≡ some (cuts (min max (length full) - 1) (length full / min max (length full)) full)
  unfolding segment_list_packages with_size
  segment_list_packages_pos full max h k l =
      let fits = share_fits (min max (length full)) full (omega arith) (omega arith) in
      let pos : ltb 0 max ≡ true = ground (arith, h) in
      rw (is_pos_lem max k, int_div_pos (length full) (min max (length full)) (omega arith), pos)
        (segments-cuts (min max (length full) - 1) (length full / min max (length full)) full 0
          fits.0 (omega (arith, fits.1)))

  -- For a list with an element and a positive `max`, the segments are, in order, the list, there are
  -- `max` of them or as many as there are elements if these are fewer, and no segment is shorter than
  -- the even share rounded down, which is at least one element.
  pub segment_list_packages-IsPartition :
      (full : List A) (max : ℕ)
      → 0 < max
      → max < int64_bound
      → 0 < length full
      → (ss : List (List A)) × (segment_list_packages full max ≡ some ss)
        × IsPartition full (min max (length full)) (length full / min max (length full)) ss
        × (0 < length full / min max (length full))
  segment_list_packages-IsPartition full max h k l =
      let fits = share_fits (min max (length full)) full (omega arith) (omega arith) in
      (
        _,
        segment_list_packages_pos full max h k l,
        subst
            (λ n.
              IsPartition full n (length full / min max (length full))
                (cuts (min max (length full) - 1) (length full / min max (length full)) full))
            (omega arith) (cuts-IsPartition (min max (length full) - 1) _ full fits.0 fits.1),
        fits.0,
      )

  -- `segment_list_packages` panics for an empty list and a positive `max`, and at nothing else.
  pub segment_list_packages-panics :
      (full : List A) (max : ℕ)
      → (segment_list_packages full max ≡ none) ↔ ((is_pos max ≡ true) × (full ≡ []))
  unfolding segment_list_packages with_size int_div
  segment_list_packages-panics [] max = elim (Bool-cases (is_pos max)) [
    | inl pos ↦ rw (pos, min-zero max) ((λ h. (refl, refl)), λ h. refl)
    | inr off ↦ rw off ((λ h. ground (arith, h)), λ h. ground (arith, h))
  ]
  segment_list_packages-panics (x ∷ xs) max = elim (Bool-cases (is_pos max)) [
    | inl pos ↦
        let b = is_pos_bounds max pos in
        let result = segment_list_packages_pos (x ∷ xs) max b.0 b.1 (omega arith) in
        ((λ h. ground (arith, h, result)), λ h. ground (arith, h))
    | inr off ↦ rw off ((λ h. ground (arith, h)), λ h. ground (arith, h))
  ]
