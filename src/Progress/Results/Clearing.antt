-- ===== src/Progress/Results/Clearing.antt =====
-- What a sample and a clearing do to the transfers that are shown.
use telegram_media_downloade.Prelude.{
  ◌≡◌, refl, Bool, false, Option, none, some, String, List, [], ◌∷◌, arith, if◌then◌else◌,
  string_key, elem, Distinct, ==_iff,
}
use telegram_media_downloade.Dict.{Dict, get, pop, keys}
use telegram_media_downloade.Dict.Laws.{get-pop}
use telegram_media_downloade.Progress.Results.{
  Entry, DownloadResultStore, is_complete, completed_keys, pop_all, clear_completed_results,
}

get-pop_all :
    (k : String) (ks : List String) (d : Dict String Entry)
    → get k (pop_all ks d) ≡ (if elem k ks then none else get k d)
unfolding pop_all
get-pop_all k [] d = refl
get-pop_all k (j ∷ ks) d = ground (arith, get-pop_all k ks (pop j d), get-pop j k d)

-- Is there an entry, and is it complete?
abbrev pub is_cleared : Option Entry → Bool
is_cleared none = false
is_cleared (some e) = is_complete e

get-absent_entry : (k : String) (d : Dict String Entry) → elem k (keys d) ≡ false → get k d ≡ none
unfolding keys get
get-absent_entry k [] h = refl
get-absent_entry k ((j, e) ∷ d) h = ground (arith, get-absent_entry k d)

elem-completed_keys :
    (k : String) (d : Dict String Entry)
    → Distinct (keys d)
    → elem k (completed_keys d) ≡ is_cleared (get k d)
unfolding completed_keys keys get
elem-completed_keys k [] h = refl
elem-completed_keys k ((j, e) ∷ d) h =
    ground (arith, elem-completed_keys k d h.1, get-absent_entry j d h.0, ==_iff j k)

-- A clearing takes out just the transfers that are complete, and leaves every other as it was, those whose
-- total is unknown included, where no key stands twice.
clear_completed_results-get :
    (s : DownloadResultStore) (k : String)
    → Distinct (keys s.entries)
    → get k (clear_completed_results s).1.entries
      ≡ (if is_cleared (get k s.entries) then none else get k s.entries)
unfolding clear_completed_results
clear_completed_results-get s k h =
    ground
      (arith, get-pop_all k (completed_keys s.entries) s.entries, elem-completed_keys k s.entries h)
