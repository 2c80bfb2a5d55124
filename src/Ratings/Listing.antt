-- ===== src/Ratings/Listing.antt =====
-- Which ratings of a drop are shown, and in which order.
use hotdrop_orchestration.Base.{Key, ◌≡◌, refl, List, map, keep, Perm, ◌==◌}
use hotdrop_orchestration.Prisma.{Prisma, Documented, is_in_memory}
use hotdrop_orchestration.Prisma.Ordering.{OrderBy, Orders, IsDescending}
use hotdrop_orchestration.Ratings.{Rating, RatingsStore, list_ratings, to_proto_rating}

-- A drop's ratings are listed without those of other drops, each exactly once, the newest first.
pub list_ratings-newest :
    (db : Prisma) (order : OrderBy)
    → Documented db
    → Orders order
    → (drop_id : Key) (s : RatingsStore)
    → (shown : List Rating) × (list_ratings db order drop_id s ≡ map to_proto_rating shown)
      × Perm shown (keep (λ r. r.drop_id == drop_id) s.tables.ratings)
      × IsDescending (λ r. r.created_at) shown
unfolding list_ratings
list_ratings-newest db order documented law drop_id s =
    let those = keep (λ (r : Rating). r.drop_id == drop_id) s.tables.ratings in
    rw (is_in_memory documented) (
      order.descending (λ (r : Rating). r.created_at) those,
      refl,
      law.descending-perm (λ (r : Rating). r.created_at) those,
      law.descending-IsDescending (λ (r : Rating). r.created_at) those,
    )
