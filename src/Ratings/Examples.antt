-- ===== src/Ratings/Examples.antt =====
-- Runs of the ratings service at concrete inputs.
use hotdrop_orchestration.Base.{◌≡◌, refl, [], ◌∷◌, Perm}
use hotdrop_orchestration.Result.{ok, err, unique_violation}
use hotdrop_orchestration.Prisma.{in_memory, in_memory-Documented}
use hotdrop_orchestration.Prisma.Ordering.Insertion.{insertion, insertion-Orders}
use hotdrop_orchestration.Examples.{clock, database}
use hotdrop_orchestration.Ratings.{
  RatingsStore, RatingInput, ProtoRating, create_rating, list_ratings,
}
use hotdrop_orchestration.Ratings.Once.{create_rating-list_ratings}

abbrev empty : RatingsStore
empty = database (record { ratings = []; support_tickets = [] })

abbrev good : RatingInput
good = record { order_id = 60; drop_id = 1; customer_id = 3; score = 5; comment = "hot" }

abbrev bad : RatingInput
bad = record { order_id = 60; drop_id = 1; customer_id = 4; score = 1; comment = "" }

create_rating-list_ratings_example :
    let (answer, t) = create_rating in_memory clock good empty in
    let given : ProtoRating = record {
      id = 100;
      drop_id = 1;
      customer_id = 3;
      score = 5;
      comment = "hot";
      created_at = 5000;
    } in
    (answer ≡ ok given)
    × Perm (list_ratings in_memory insertion 1 t) (given ∷ list_ratings in_memory insertion 1 empty)
    × (list_ratings in_memory insertion 2 t ≡ list_ratings in_memory insertion 2 empty)
    × (create_rating in_memory clock bad t ≡ (err unique_violation, t))
create_rating-list_ratings_example =
    create_rating-list_ratings in_memory insertion in_memory-Documented insertion-Orders clock clock
      good bad empty 2 refl refl refl
