-- ===== src/Task/Pages.antt =====
-- The pages of `paginate_files`, over the files as `sorted` has put them in order.
use telegram_media_downloade.Prelude.{
  drop, ℕ, zero, suc, ◌+◌, ◌-◌, ◌*◌, ◌≤◌, ◌≡◌, refl, ◌∙◌, ap, max, min, List, [], ◌∷◌, ◌++◌, length,
  arith, nat_beq, if◌then◌else◌,
}
use telegram_media_downloade.Prelude.Int.{ℤ, pos, negsuc, clamp}

-- `max(int(page or 1), 1)`
unfoldable pub safe_page : ℤ → ℕ
safe_page page = max (clamp page) 1

-- `page_size or 50`
abbrev pub size_or_default : ℤ → ℤ
size_or_default (pos n) = if nat_beq n 0 then pos 50 else pos n
size_or_default (negsuc n) = negsuc n

unfoldable pub safe_page_size : ℤ → ℕ → ℕ
safe_page_size page_size max_page_size =
    min (max (clamp (size_or_default page_size)) 1) max_page_size

module _ {ℓ} {A : Type ℓ} where
  abbrev pub take : ℕ → List A → List A
  take zero xs = []
  take (suc n) [] = []
  take (suc n) (x ∷ xs) = x ∷ take n xs

  -- `files[start:end]`, with `start = (safe_page - 1) * safe_page_size` and `end = start + safe_page_size`.
  unfoldable pub page_items : ℕ → ℕ → List A → List A
  page_items page page_size files = take page_size (drop ((page - 1) * page_size) files)

  -- The pages 1 to n, one after the other.
  unfoldable pub first_pages : ℕ → ℕ → List A → List A
  unfolding page_items
  first_pages zero page_size files = []
  first_pages (suc n) page_size files =
      first_pages n page_size files ++ page_items (suc n) page_size files

  take-drop : (a b c : ℕ) (xs : List A) → c ≡ a + b → take a xs ++ take b (drop a xs) ≡ take c xs
  take-drop zero b c xs h = ap (λ n. take n xs) (omega (arith, h))
  take-drop (suc a) b zero xs h = absurd (omega (arith, h))
  take-drop (suc a) zero (suc c) [] h = refl
  take-drop (suc a) (suc b) (suc c) [] h = refl
  take-drop (suc a) b (suc c) (x ∷ xs) h = ap (λ ys. x ∷ ys) (take-drop a b c xs (omega (arith, h)))

  take_all : (n : ℕ) (xs : List A) → length xs ≤ n → take n xs ≡ xs
  take_all zero [] h = refl
  take_all zero (x ∷ xs) h = absurd (omega (arith, h))
  take_all (suc n) [] h = refl
  take_all (suc n) (x ∷ xs) h = ap (λ ys. x ∷ ys) (take_all n xs (omega (arith, h)))

  first_pages-take :
      (n page_size : ℕ) (files : List A)
      → first_pages n page_size files ≡ take (n * page_size) files
  unfolding first_pages page_items
  first_pages-take zero page_size files =
      let none_yet : 0 ≡ 0 * page_size = ground arith in ap (λ k. take k files) none_yet
  first_pages-take (suc n) page_size files =
      let before : (suc n - 1) * page_size ≡ n * page_size = ground arith in
      let after_it : suc n * page_size ≡ n * page_size + page_size = ground arith in
      ap (λ ys. ys ++ take page_size (drop ((suc n - 1) * page_size) files))
        (first_pages-take n page_size files)
      ∙ ap (λ k. take (n * page_size) files ++ take page_size (drop k files)) before
      ∙ take-drop (n * page_size) page_size (suc n * page_size) files after_it

-- Going through the pages until they hold as many files as there are shows every file once, in order: no
-- file is left out or shown on two pages. The size of a page is the one that the request comes to.
first_pages-all {ℓ} :
    {A : Type ℓ} (n : ℕ) (page_size : ℤ) (max_page_size : ℕ) (files : List A)
    → length files ≤ n * safe_page_size page_size max_page_size
    → first_pages n (safe_page_size page_size max_page_size) files ≡ files
first_pages-all n page_size max_page_size files enough =
    first_pages-take n (safe_page_size page_size max_page_size) files
    ∙ take_all (n * safe_page_size page_size max_page_size) files enough
