-- ===== src/Kitchen/Query/Listing.antt =====
-- Which drops are on the shelf, and in which order.
use hotdrop_orchestration.Base.{
  ◌≡◌, refl, ap, subst, Bool, true, false, none, List, map, keep, fun_ext, Perm,
}
use hotdrop_orchestration.Contracts.{DropStatus}
use hotdrop_orchestration.Result.{ok}
use hotdrop_orchestration.Prisma.{Prisma, Documented, is_in_memory}
use hotdrop_orchestration.Prisma.Ordering.{OrderBy, Orders, IsAscending}
use hotdrop_orchestration.Kitchen.{Drop, KitchenStore}
use hotdrop_orchestration.Kitchen.Query.{
  list_drops, drops_with, wanted_status, has_status, to_proto,
}

abbrev pub is_live : DropStatus → Bool
is_live DropStatus.live = true
is_live _ = false

has_status-live : (status : DropStatus) → has_status "LIVE" status ≡ is_live status
unfolding has_status
has_status-live DropStatus.draft = refl
has_status-live DropStatus.scheduled = refl
has_status-live DropStatus.live = refl
has_status-live DropStatus.sold_out = refl
has_status-live DropStatus.closed = refl

-- Without a status the drops that are LIVE are listed and no others, each exactly once, the earliest
-- delivery window first.
pub list_drops-live :
    (db : Prisma) (order : OrderBy)
    → Documented db
    → Orders order
    → (s : KitchenStore)
    → (shown : List Drop) × (list_drops db order none s ≡ ok (map to_proto shown))
      × Perm shown (keep (λ d. is_live d.status) s.tables.drops)
      × IsAscending (λ d. d.window_from) shown
unfolding list_drops drops_with wanted_status has_status
list_drops-live db order documented law s =
    let those = keep (λ (d : Drop). has_status "LIVE" d.status) s.tables.drops in
    let same : those ≡ keep (λ (d : Drop). is_live d.status) s.tables.drops =
      ap (λ (p : Drop → Bool). keep p s.tables.drops) (fun_ext (λ d. has_status-live d.status)) in
    rw (is_in_memory documented) (
      order.ascending (λ (d : Drop). d.window_from) those,
      refl,
      subst (λ (rows : List Drop). Perm (order.ascending (λ (d : Drop). d.window_from) those) rows)
          same (law.ascending-perm (λ (d : Drop). d.window_from) those),
      law.ascending-IsAscending (λ (d : Drop). d.window_from) those,
    )
