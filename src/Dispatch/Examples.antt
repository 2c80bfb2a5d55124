-- ===== src/Dispatch/Examples.antt =====
-- Runs of the dispatch service at concrete inputs.
use hotdrop_orchestration.Base.{ℕ, ◌*◌, ◌≡◌, refl, String, none, some, [], ◌∷◌}
use hotdrop_orchestration.Contracts.{CourierAssignmentStatus, DeliveryStatus, AssignCourierCommand}
use hotdrop_orchestration.Prisma.{in_memory, in_memory-Documented}
use hotdrop_orchestration.Examples.{clock, database}
use hotdrop_orchestration.Messaging.{write_outbox}
use hotdrop_orchestration.Participant.{consume}
use hotdrop_orchestration.Dispatch.{CourierAssignment, Delivery, DispatchStore, is_delivered}
use hotdrop_orchestration.Dispatch.Service.{
  match_courier, start_timer, assign_courier, complete_delivery, complete_found, set_delivered,
  assign_work, create_assignment, create_delivery,
}
use hotdrop_orchestration.Dispatch.Offers.{IsFirstTaken, match_courier-IsFirstTaken}
use hotdrop_orchestration.Dispatch.Announced.{
  announced, made, taken, Reach, here, next, timer, assigning, Reach-IsAnnounced,
}
use hotdrop_orchestration.Dispatch.Assigning.{delivery_of, assigned, assign_courier-assigned}

abbrev draws : ℕ → ℕ
draws n = n * 20

abbrev couriers : ℕ → String
couriers n = "courier-0"

match_courier-IsFirstTaken_example :
    IsFirstTaken 30 draws couriers 0 3 (match_courier 30 draws couriers)
match_courier-IsFirstTaken_example = match_courier-IsFirstTaken 30 draws couriers

abbrev assignment : CourierAssignment
assignment = record {
  id = 30;
  order_id = 60;
  courier_id = "courier-1";
  status = CourierAssignmentStatus.accepted;
}

abbrev delivery : Delivery
delivery = record { id = 31; order_id = 60; assignment_id = 30; status = DeliveryStatus.assigned }

abbrev dispatch : DispatchStore
dispatch = database (record { assignments = assignment ∷ []; deliveries = delivery ∷ [] })

abbrev to_other : AssignCourierCommand
to_other = record { order_id = 61; delivery_address = "2 High Street" }

assign_courier-assigned_example :
    assign_courier in_memory clock 7 to_other (some "courier-2") dispatch
    ≡ assigned clock 7 to_other none (some "courier-2") none dispatch
assign_courier-assigned_example =
    assign_courier-assigned in_memory in_memory-Documented clock 7 to_other (some "courier-2")
      dispatch

-- Order 60 is delivered, its timer fires again, and order 61 is taken.
abbrev delivered_once : DispatchStore
delivered_once = complete_delivery in_memory clock 60 dispatch

abbrev delivered_twice : DispatchStore
delivered_twice = complete_delivery in_memory clock 60 delivered_once

abbrev taken_up : DispatchStore
taken_up = (assign_courier in_memory clock 7 to_other (some "courier-2") delivered_twice).1

abbrev fired_twice : Reach in_memory dispatch taken_up
fired_twice =
    next (next (next here (timer clock 60)) (timer clock 60))
      (assigning clock 7 to_other (some "courier-2"))

Reach-IsAnnounced_example :
    (announced 60 taken_up.outbox ≡ made (delivery_of 60 taken_up))
    × (announced 60 (complete_delivery in_memory clock 60 taken_up).outbox
        ≡ taken (delivery_of 60 taken_up))
unfolding is_delivered
Reach-IsAnnounced_example = Reach-IsAnnounced in_memory-Documented clock 60 fired_twice refl

-- The delivery of order 60 is made, and it was announced once.
announced_one : announced 60 taken_up.outbox ≡ 1
unfolding is_delivered complete_delivery complete_found set_delivered write_outbox assign_courier
    assign_work create_assignment create_delivery start_timer consume
announced_one = refl
