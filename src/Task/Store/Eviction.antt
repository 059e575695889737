-- ===== src/Task/Store/Eviction.antt =====
-- The eviction of the oldest completed tasks: it ends within the limit, and only removes.
use telegram_media_downloade.Prelude.{
  ℕ, zero, suc, ◌≤◌, ◌<◌, ◌≡◌, inl, inr, refl, true, some, String, [], ◌∷◌, length, ltb,
  if◌then◌else◌, string_key, arith, Bool-cases, elem, ==_refl,
}
use telegram_media_downloade.Dict.{Dict, get, pop, keys}
use telegram_media_downloade.Dict.Laws.{get-pop, length-pop-lt}
use telegram_media_downloade.Dict.Order.{elem-get-some}
use telegram_media_downloade.Task.Snapshot.{TaskSnapshot}
use telegram_media_downloade.Task.Store.{oldest_from, oldest, evict}

-- The search ends at its start or at one of the keys.
elem-oldest_from :
    (k : String) (at : ℕ) (d : Dict String TaskSnapshot)
    → elem (oldest_from k at d) (k ∷ keys d) ≡ true
unfolding oldest_from keys
elem-oldest_from k at [] = ground (arith, ==_refl k)
elem-oldest_from k at ((j, u) ∷ d) = ground (
  arith,
  elem-oldest_from (if ltb u.updated_at at then j else k)
      (if ltb u.updated_at at then u.updated_at else at) d,
)

elem-oldest :
    (d : Dict String TaskSnapshot) (k : String) → oldest d ≡ some k → elem k (keys d) ≡ true
unfolding oldest keys
elem-oldest [] k h = ground arith
elem-oldest ((j, u) ∷ d) k h = ground (arith, elem-oldest_from j u.updated_at d)

oldest_total : (d : Dict String TaskSnapshot) → 0 < length d → (k : String) × (oldest d ≡ some k)
unfolding oldest
oldest_total [] h = absurd (omega arith)
oldest_total ((j, u) ∷ d) h = (_, refl)

-- One eviction makes the dictionary shorter.
length-pop-oldest :
    (d : Dict String TaskSnapshot) (k : String) → oldest d ≡ some k → length (pop k d) < length d
length-pop-oldest d k h =
    let (v, e) = elem-get-some k d (elem-oldest d k h) in length-pop-lt k d v e

pub length-evict :
    (fuel limit : ℕ) (d : Dict String TaskSnapshot)
    → length d ≤ fuel
    → length (evict fuel limit d).0 ≤ limit
unfolding evict
length-evict zero limit d h = omega arith
length-evict (suc fuel) limit d h = elim (Bool-cases (ltb limit (length d))) [
  | inl more ↦
      let (k, e) = oldest_total d (ground arith) in
      rw (more, evict)
        (rw (e, evict) (length-evict fuel limit (pop k d) (omega (arith, length-pop-oldest d k e))))
  | inr fits ↦ rw (fits, evict) (ground arith)
]

get-pop_le :
    (j k : String) (t : TaskSnapshot) (d : Dict String TaskSnapshot)
    → get k (pop j d) ≡ some t
    → get k d ≡ some t
get-pop_le j k t d h = ground (arith, get-pop j k d)

-- What is kept was there.
pub get-evict :
    (fuel limit : ℕ) (d : Dict String TaskSnapshot) (k : String) (t : TaskSnapshot)
    → get k (evict fuel limit d).0 ≡ some t
    → get k d ≡ some t
unfolding evict
get-evict zero limit d k t h = h
get-evict (suc fuel) limit d k t h = elim (Bool-cases (ltb limit (length d))) [
  | inr fits ↦ (rw (fits, evict) at h)
  | inl more ↦
      let (j, e) = oldest_total d (ground arith) in
      get-pop_le j k t d
        (get-evict fuel limit (pop j d) k t (rw (e, evict) at (rw (more, evict) at h)))
]
