-- ===== src/Ratings/Once.antt =====
-- The ratings of an order and of a drop, and a support ticket with its event.
use mathlib.Core.List.{map-append, perm_append_singleton}
use mathlib.Core.List.Perm as Permutation
use Prim.Native.String.{len, slice}
use text.Mathlib.TextPositions.{slice_all, slice-zero-zero}
use hotdrop_orchestration.Base.{
  Key, ℕ, suc, String, Bool, true, false, ◌≡◌, refl, sym, ◌∙◌, ap, subst, Option, none, some, List,
  [], ◌∷◌, ◌++◌, map, keep, Perm, ◌==◌, ==_refl, ltb, first, first-append, Bool-cases, inl, inr,
  arith,
}
use hotdrop_orchestration.Contracts.{Payload, support_ticket_created}
use hotdrop_orchestration.Result.{ok, err, unique_violation}
use hotdrop_orchestration.Prisma.{Prisma, Documented, in_memory, is_in_memory}
use hotdrop_orchestration.Prisma.Ordering.{OrderBy, Orders}
use hotdrop_orchestration.Messaging.{Env, create_outbox_message, outbox_row}
use hotdrop_orchestration.Ratings.{
  Rating, RatingsStore, RatingInput, TicketInput, ProtoRating, to_proto_rating, to_proto_ticket,
  rating_row, ticket_row, comment_of, comment_or_null, list_ratings, create_rating,
  create_support_ticket,
}

-- The rating of an order, if it has one.
abbrev pub rating_of : Key → RatingsStore → Option Rating
rating_of order_id s = first (λ r. r.order_id == order_id) s.tables.ratings

abbrev pub rated : Env → RatingInput → RatingsStore → RatingsStore
rated env input s = record s {
  tables = record (s.tables) { ratings = s.tables.ratings ++ rating_row env s.drawn input ∷ [] };
  drawn = suc s.drawn;
}

rate_new :
    (env : Env) (input : RatingInput) (s : RatingsStore)
    → rating_of input.order_id s ≡ none
    → create_rating in_memory env input s
      ≡ (ok (to_proto_rating (rating_row env s.drawn input)), rated env input s)
unfolding create_rating rating_row
rate_new env input s e = ground arith

rate_again :
    (env : Env) (input : RatingInput) (s : RatingsStore) (r : Rating)
    → rating_of input.order_id s ≡ some r
    → create_rating in_memory env input s ≡ (err unique_violation, s)
unfolding create_rating rating_row
rate_again env input s r e = ground arith

rated_again :
    (env later : Env) (input again : RatingInput) (s : RatingsStore)
    → rating_of input.order_id s ≡ none
    → again.order_id ≡ input.order_id
    → create_rating in_memory later again (rated env input s)
      ≡ (err unique_violation, rated env input s)
unfolding rating_row
rated_again env later input again s new same =
    rate_again later again (rated env input s) (rating_row env s.drawn input) (
      rw same (
        first-append (λ r. r.order_id == input.order_id) s.tables.ratings _ new
          (==_refl input.order_id)))

-- A text without characters is the empty one, which null stands for.
empty_text : (text : String) → len text ≡ 0 → text ≡ ""
empty_text text e = sym (slice_all text) ∙ ap (slice text 0) e ∙ slice-zero-zero text

comment_round_trip : (text : String) → comment_of (comment_or_null text) ≡ text
unfolding comment_of comment_or_null
comment_round_trip text = elim (Bool-cases (ltb 0 (len text))) [
  | inl some_text ↦ rw some_text refl
  | inr no_text ↦ rw no_text (sym (empty_text text (ground arith)))
]

-- The answer to a rating, and how it is listed.
abbrev pub given_rating : Env → ℕ → RatingInput → ProtoRating
given_rating env drawn input = record {
  id = env.cuid drawn;
  drop_id = input.drop_id;
  customer_id = input.customer_id;
  score = input.score;
  comment = input.comment;
  created_at = env.now;
}

given_rating_lem :
    (env : Env) (drawn : ℕ) (input : RatingInput)
    → to_proto_rating (rating_row env drawn input) ≡ given_rating env drawn input
unfolding to_proto_rating rating_row
given_rating_lem env drawn input =
    ap (λ text. record (given_rating env drawn input) { comment = text })
      (comment_round_trip input.comment)

keep-append_own :
    (p : Rating → Bool) (rows : List Rating) (r : Rating)
    → p r ≡ true
    → keep p (rows ++ r ∷ []) ≡ keep p rows ++ r ∷ []
keep-append_own p [] r e = rw e refl
keep-append_own p (x ∷ rows) r e = ground (arith, keep-append_own p rows r e)

keep-append_other :
    (p : Rating → Bool) (rows : List Rating) (r : Rating)
    → p r ≡ false
    → keep p (rows ++ r ∷ []) ≡ keep p rows
keep-append_other p [] r e = rw e refl
keep-append_other p (x ∷ rows) r e = ground (arith, keep-append_other p rows r e)

module _ (order : OrderBy) (law : Orders order) (drop_id : Key) where
  listed-perm :
      (s : RatingsStore)
      → Perm
          (list_ratings in_memory order drop_id s)
          (map to_proto_rating (keep (λ r. r.drop_id == drop_id) s.tables.ratings))
  unfolding list_ratings
  listed-perm s = Permutation.map to_proto_rating (law.descending-perm (λ r. r.created_at) _)

  listed-own :
      (env : Env) (input : RatingInput) (s : RatingsStore)
      → (input.drop_id == drop_id) ≡ true
      → Perm
          (list_ratings in_memory order drop_id (rated env input s))
          (given_rating env s.drawn input ∷ list_ratings in_memory order drop_id s)
  unfolding rating_row
  listed-own env input s own =
      let those = keep (λ (r : Rating). r.drop_id == drop_id) s.tables.ratings in
      let row = rating_row env s.drawn input in
      let rows : map to_proto_rating
            (keep (λ r. r.drop_id == drop_id) (s.tables.ratings ++ row ∷ []))
          ≡ map to_proto_rating those ++ given_rating env s.drawn input ∷ [] =
        ap (map to_proto_rating)
          (keep-append_own (λ r. r.drop_id == drop_id) s.tables.ratings row own)
        ∙ map-append to_proto_rating those (row ∷ [])
        ∙ ap (λ x. map to_proto_rating those ++ x ∷ []) (given_rating_lem env s.drawn input) in
      Permutation.trans
        (subst (Perm (list_ratings in_memory order drop_id (rated env input s))) rows
          (listed-perm (rated env input s)))
        (Permutation.trans (perm_append_singleton _ _)
          (Permutation.cons _ (Permutation.symm (listed-perm s))))

  listed-other :
      (env : Env) (input : RatingInput) (s : RatingsStore)
      → (input.drop_id == drop_id) ≡ false
      → list_ratings in_memory order drop_id (rated env input s)
        ≡ list_ratings in_memory order drop_id s
  unfolding list_ratings rating_row
  listed-other env input s other =
      ap (λ rows. map to_proto_rating (order.descending (λ r. r.created_at) rows))
        (keep-append_other (λ r. r.drop_id == drop_id) s.tables.ratings _ other)

-- An order without a rating gets the one that is sent: it is answered, and is then listed for its
-- drop with the score and the comment that were sent, beside the ratings that were listed before,
-- while the list of another drop stays as it is. A second rating for the order, of whatever drop, is
-- refused and changes nothing.
pub create_rating-list_ratings :
    (db : Prisma) (order : OrderBy)
    → Documented db
    → Orders order
    → (env later : Env) (input again : RatingInput) (s : RatingsStore) (other : Key)
    → rating_of input.order_id s ≡ none
    → (input.drop_id == other) ≡ false
    → again.order_id ≡ input.order_id
    → let (answer, t) = create_rating db env input s in
      let given : ProtoRating = record {
        id = env.cuid s.drawn;
        drop_id = input.drop_id;
        customer_id = input.customer_id;
        score = input.score;
        comment = input.comment;
        created_at = env.now;
      } in
      (answer ≡ ok given)
      × Perm (list_ratings db order input.drop_id t) (given ∷ list_ratings db order input.drop_id s)
      × (list_ratings db order other t ≡ list_ratings db order other s)
      × (create_rating db later again t ≡ (err unique_violation, t))
create_rating-list_ratings db order documented law env later input again s other new apart same =
    rw (is_in_memory documented) (
      rw (rate_new env input s new) (
        ap ok (given_rating_lem env s.drawn input),
        listed-own order law input.drop_id env input s (==_refl input.drop_id),
        listed-other order law other env input s apart,
        rated_again env later input again s new same,
      ))

-- A support ticket is kept together with its event: one new row, one new outbox message with the
-- ticket's id, customer and subject, and the answer is the row's.
pub create_support_ticket-kept :
    (db : Prisma)
    → Documented db
    → (env : Env) (input : TicketInput) (s : RatingsStore)
    → let row = ticket_row env s.drawn input in
      create_support_ticket db env input s ≡ (
        ok (to_proto_ticket row),
        record s {
          tables = record (s.tables) { support_tickets = s.tables.support_tickets ++ row ∷ [] };
          outbox =
              s.outbox
              ++ outbox_row env (
                  create_outbox_message env (suc s.drawn) support_ticket_created (
                    Payload.ticket_body (record {
                      ticket_id = row.id;
                      customer_id = row.customer_id;
                      subject = row.subject;
                    })))
                ∷ [];
          drawn = suc (suc s.drawn);
        },
      )
unfolding create_support_ticket
create_support_ticket-kept db law env input s = rw (is_in_memory law)
