-- ===== src/Disk/Books.antt =====
-- The books that the coroutines and the reservation objects imply: what `acquirers` say of the
-- requests, and the unreleased objects of the reservations.
use telegram_media_downloade.Prelude.{
  ℕ, zero, suc, ◌≡◌, refl, ap, true, false, none, some, String, List, [], ◌∷◌, ◌++◌, if◌then◌else◌,
  string_key, ==_iff, elem, Distinct, arith, Bool-cases, inl, inr, ==_refl,
}
use telegram_media_downloade.Dict.{Dict, get, put, pop, keys}
use telegram_media_downloade.Dict.Order.{pop_absent}
use telegram_media_downloade.Disk.{Admission, release}
use telegram_media_downloade.Disk.System.{Acquirer, DiskReservation, give_back, release_once}

-- The requests, by the local variables of the coroutines.
unfoldable pub sizes : Dict String Acquirer → Dict String ℕ
sizes [] = []
sizes ((k, q) ∷ d) = (k, q.required_bytes) ∷ sizes d

-- The reserved bytes, by the objects that are not released.
unfoldable pub book : List DiskReservation → Dict String ℕ
book [] = []
book (r ∷ rs) = if r.released then book rs else (r.reservation_id, r.size_bytes) ∷ book rs

pub keys-sizes : (d : Dict String Acquirer) → keys (sizes d) ≡ keys d
unfolding sizes keys
keys-sizes [] = refl
keys-sizes ((k, q) ∷ d) = ap (λ (t : List String). k ∷ t) (keys-sizes d)

pub get-sizes :
    (k : String) (d : Dict String Acquirer) (q : Acquirer)
    → get k d ≡ some q
    → get k (sizes d) ≡ some q.required_bytes
unfolding sizes get
get-sizes k [] q h = ground arith
get-sizes k ((j, p) ∷ d) q h = ground (arith, get-sizes k d q)

pub get-sizes-none :
    (k : String) (d : Dict String Acquirer) → get k d ≡ none → get k (sizes d) ≡ none
unfolding sizes get
get-sizes-none k [] h = refl
get-sizes-none k ((j, p) ∷ d) h = ground (arith, get-sizes-none k d)

pub get_of_sizes : (k : String) (d : Dict String Acquirer) → get k (sizes d) ≡ none → get k d ≡ none
unfolding sizes get
get_of_sizes k [] h = refl
get_of_sizes k ((j, p) ∷ d) h = ground (arith, get_of_sizes k d)

pub sizes-pop : (k : String) (d : Dict String Acquirer) → sizes (pop k d) ≡ pop k (sizes d)
unfolding sizes pop
sizes-pop k [] = refl
sizes-pop k ((j, p) ∷ d) = ground (arith, sizes-pop k d)

pub sizes-put :
    (k : String) (q : Acquirer) (d : Dict String Acquirer)
    → sizes (put k q d) ≡ put k q.required_bytes (sizes d)
unfolding sizes put
sizes-put k q [] = refl
sizes-put k q ((j, p) ∷ d) = ground (arith, sizes-put k q d)

-- A coroutine that goes on with the same request leaves the requests as they are.
pub sizes-put_same :
    (k : String) (p q : Acquirer) (d : Dict String Acquirer)
    → get k d ≡ some p
    → q.required_bytes ≡ p.required_bytes
    → sizes (put k q d) ≡ sizes d
unfolding sizes put get
sizes-put_same k p q [] h e = ground arith
sizes-put_same k p q ((j, r) ∷ d) h e = ground (arith, sizes-put_same k p q d)

pub book-append :
    (k : String) (n : ℕ) (rs : List DiskReservation)
    → book (rs ++ record { reservation_id = k; size_bytes = n; released = false } ∷ [])
      ≡ book rs ++ (k, n) ∷ []
unfolding book
book-append k n [] = refl
book-append k n (r ∷ rs) = ground (arith, book-append k n rs)

-- A call of `release()` takes one entry out of the book, or nothing.
pub data GaveBack (a : Admission) (rs : List DiskReservation)
    (out : List DiskReservation × Admission) : Type 0 where
  nothing : out ≡ (rs, a) → GaveBack a rs out
  entry :
      (k : String)
      → elem k (keys (book rs)) ≡ true
      → out.1 ≡ release k a
      → book out.0 ≡ pop k (book rs)
      → GaveBack a rs out

give_back_later :
    (r : DiskReservation) (a : Admission) (rs : List DiskReservation)
    (out : List DiskReservation × Admission)
    → Distinct (keys (book (r ∷ rs)))
    → GaveBack a rs out
    → GaveBack a (r ∷ rs) (r ∷ out.0, out.1)
give_back_later r a rs out d (nothing e) = nothing (ground arith)
give_back_later r a rs out d (entry k m e b) = elim (Bool-cases r.released) [
  | inl gone ↦ entry k (unfold book in ground arith) e (unfold book in ground arith)
  | inr held ↦
      entry k (unfold book keys in ground arith) e
        (unfold book keys pop in ground (arith, ==_iff r.reservation_id k))
]

give_back_here :
    (r : DiskReservation) (a : Admission) (rs : List DiskReservation)
    → Distinct (keys (book (r ∷ rs)))
    → GaveBack a (r ∷ rs) ((release_once r a).0 ∷ rs, (release_once r a).1)
give_back_here r a rs d = elim (Bool-cases r.released) [
  | inl gone ↦ nothing (unfold release_once in ground arith)
  | inr held ↦
      entry r.reservation_id (unfold book keys in ground (arith, ==_refl r.reservation_id))
        (unfold release_once in ground arith)
        (unfold release_once book keys pop in
          ground (arith, ==_refl r.reservation_id, pop_absent r.reservation_id (book rs)))
]

-- The entries of the reservations after the first are distinct too.
Distinct-book_tail :
    (r : DiskReservation) (rs : List DiskReservation)
    → Distinct (keys (book (r ∷ rs)))
    → Distinct (keys (book rs))
unfolding book keys
Distinct-book_tail r rs d = ground arith

pub give_back-GaveBack :
    (i : ℕ) (a : Admission) (rs : List DiskReservation)
    → Distinct (keys (book rs))
    → GaveBack a rs (give_back i rs a)
unfolding give_back
give_back-GaveBack i a [] d = nothing refl
give_back-GaveBack zero a (r ∷ rs) d = give_back_here r a rs d
give_back-GaveBack (suc i) a (r ∷ rs) d =
    give_back_later r a rs (give_back i rs a) d
      (give_back-GaveBack i a rs (Distinct-book_tail r rs d))
