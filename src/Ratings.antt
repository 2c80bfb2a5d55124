-- ===== src/Ratings.antt =====
-- apps/ratings-service: ratings and support tickets (prisma/schema/ratings.prisma, ratings.service.ts,
-- ratings-query.controller.ts). Times stay numbers.
pub mod Once
pub mod Listing
mod Examples
use Prim.Native.String.{len}
use hotdrop_orchestration.Base.{
  Key, ℕ, suc, String, Bool, Option, none, some, List, [], ◌∷◌, map, ◌==◌, ltb, if◌then◌else◌,
}
use hotdrop_orchestration.Contracts.{Payload, support_ticket_created}
use hotdrop_orchestration.Result.{Result, ok, err, Tx, pure, ◌>>=◌, ◌>>◌}
use hotdrop_orchestration.Prisma.{Prisma}
use hotdrop_orchestration.Prisma.Ordering.{OrderBy}
use hotdrop_orchestration.Messaging.{Env, Store, write_outbox}

pub record Rating : Type 0 where
  pub id : Key
  pub drop_id : Key
  pub order_id : Key
  pub customer_id : Key
  pub score : ℕ
  pub comment : Option String
  pub created_at : ℕ

pub record SupportTicket : Type 0 where
  pub id : Key
  pub customer_id : Key
  pub subject : String
  pub body : String
  pub created_at : ℕ

pub record RatingsTables : Type 0 where
  pub ratings : List Rating
  pub support_tickets : List SupportTicket

abbrev pub RatingsStore : Type 0
RatingsStore = Store RatingsTables

pub record ProtoRating : Type 0 where
  pub id : Key
  pub drop_id : Key
  pub customer_id : Key
  pub score : ℕ
  pub comment : String
  pub created_at : ℕ

pub record ProtoSupportTicket : Type 0 where
  pub id : Key
  pub customer_id : Key
  pub subject : String
  pub created_at : ℕ

pub record RatingInput : Type 0 where
  pub order_id : Key
  pub drop_id : Key
  pub customer_id : Key
  pub score : ℕ
  pub comment : String

pub record TicketInput : Type 0 where
  pub customer_id : Key
  pub subject : String
  pub body : String

abbrev pub rating_order_key : Rating → Key
rating_order_key r = r.order_id

-- input.comment.length > 0 ? input.comment : null
unfoldable pub comment_or_null : String → Option String
comment_or_null text = if ltb 0 (len text) then some text else none

-- rating.comment ?? ""
unfoldable pub comment_of : Option String → String
comment_of none = ""
comment_of (some text) = text

unfoldable pub to_proto_rating : Rating → ProtoRating
unfolding comment_of
to_proto_rating r = record {
  id = r.id;
  drop_id = r.drop_id;
  customer_id = r.customer_id;
  score = r.score;
  comment = comment_of r.comment;
  created_at = r.created_at;
}

unfoldable pub to_proto_ticket : SupportTicket → ProtoSupportTicket
to_proto_ticket t = record {
  id = t.id;
  customer_id = t.customer_id;
  subject = t.subject;
  created_at = t.created_at;
}

unfoldable pub rating_row : Env → ℕ → RatingInput → Rating
unfolding comment_or_null
rating_row env drawn input = record {
  id = env.cuid drawn;
  drop_id = input.drop_id;
  order_id = input.order_id;
  customer_id = input.customer_id;
  score = input.score;
  comment = comment_or_null input.comment;
  created_at = env.now;
}

unfoldable pub ticket_row : Env → ℕ → TicketInput → SupportTicket
ticket_row env drawn input = record {
  id = env.cuid drawn;
  customer_id = input.customer_id;
  subject = input.subject;
  body = input.body;
  created_at = env.now;
}

unfoldable pub list_ratings : Prisma → OrderBy → Key → RatingsStore → List ProtoRating
unfolding to_proto_rating
list_ratings db order drop_id s =
    let ratings = db.find_many (λ r. r.drop_id == drop_id) s.tables.ratings in
    map to_proto_rating (order.descending (λ r. r.created_at) ratings)

module _ (db : Prisma) (env : Env) where
  -- createRating, one statement outside a transaction: it writes its row, or throws.
  unfoldable pub create_rating : RatingInput → RatingsStore → Result ProtoRating × RatingsStore
  create_rating input s =
      let row = rating_row env s.drawn input in
      elim (db.create (rating_order_key ∷ []) row s.tables.ratings) [
        | ok rows ↦ (
          ok (to_proto_rating row),
          record s { tables = record (s.tables) { ratings = rows }; drawn = suc s.drawn },
        )
        | err e ↦ (err e, s)
      ]

  unfoldable pub create_ticket : TicketInput → Tx RatingsStore SupportTicket
  create_ticket input s =
      let row = ticket_row env s.drawn input in
      elim (db.create [] row s.tables.support_tickets) [
        | ok rows ↦ ok (
          row,
          record s { tables = record (s.tables) { support_tickets = rows }; drawn = suc s.drawn },
        )
        | err e ↦ err e
      ]

  -- The event SupportTicketCreated.
  unfoldable pub announce_ticket : SupportTicket → Tx RatingsStore (Unit {0})
  unfolding write_outbox
  announce_ticket created = write_outbox db env support_ticket_created (
      Payload.ticket_body (record {
        ticket_id = created.id;
        customer_id = created.customer_id;
        subject = created.subject;
      }))

  unfoldable pub ticket_work : TicketInput → Tx RatingsStore SupportTicket
  unfolding create_ticket announce_ticket
  ticket_work input = do created ← create_ticket input; announce_ticket created; pure created

  unfoldable pub answer_ticket :
      Result SupportTicket × RatingsStore → Result ProtoSupportTicket × RatingsStore
  unfolding to_proto_ticket
  answer_ticket (ok t, s) = (ok (to_proto_ticket t), s)
  answer_ticket (err e, s) = (err e, s)

  unfoldable pub create_support_ticket :
      TicketInput → RatingsStore → Result ProtoSupportTicket × RatingsStore
  unfolding ticket_work answer_ticket
  create_support_ticket input s = answer_ticket (db.transaction (ticket_work input) s)
