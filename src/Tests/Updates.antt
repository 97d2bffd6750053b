-- ===== src/Tests/Updates.antt =====
-- The theorems on updates and on what they leave, in the small CoreDNS.
use ksdns.Prelude.{
  ℕ, ◌≡◌, ◌↔◌, ◌<◌, ◌+◌, ◌⊎◌, refl, false, none, some, [], ◌∷◌, ◌++◌, arith, inl, inr, All,
}
use ksdns.Prelude.Go.{ok}
use ksdns.Zupd.Coredns.{Zone}
use ksdns.Zupd.Dns
use ksdns.Zupd.State.{Request, DynamicUpdate, Outcome, rcode}
use ksdns.Zupd.Merge.Contents.{Holds}
use ksdns.Zupd.Update.{
  continue, stop, apply_questions, apply_rrs, apply_rr, update_type, is_allowed,
}
use ksdns.Zupd.Update.Effects.{zone_of}
use ksdns.Zupd.Update.Acceptance.{IsAcceptable, effects, apply_rrs_continues, refused_keeps_prefix}
use ksdns.Zupd.Serve.{
  soa_serial, status_of, find_object, update_reply, handle_update, serve_dns, persist,
  persist_found, finish_update, set_serials,
}
use ksdns.Zupd.Merge.{merge, insert_each, transfer}
use ksdns.Zupd.Serve.Outcomes.{handle_update_keeps, handle_update_success, query_changes_nothing}
use ksdns.Zupd.Serve.Order.{Newer, serial_advances}
use ksdns.Zupd.Serve.Secondaries.{update_reaches_secondaries}
use ksdns.Tests.Toy.{Rr, FileZone, address, soa, toy, toy_laws}
use ksdns.Tests.Zupd.{object, static, dynamic, table-IsServable, start, connection, query, update}

abbrev pub addition : Request toy
addition = update (address "new" ∷ [])

abbrev after : Outcome × DynamicUpdate toy
after = handle_update toy connection 5000 "a." dynamic addition (start (object ∷ []))

pub addition_succeeds :
    (handle_update toy connection 5000 "a." dynamic addition (start (object ∷ []))).0
    ≡ rcode Dns.rcode_success
unfolding handle_update apply_questions apply_rrs apply_rr is_allowed update_type persist
    persist_found find_object finish_update merge insert_each set_serials
addition_succeeds = refl

handle_update_success_example :
    (dz' : FileZone) × (obj : Zone) × (apply_questions toy 1 dynamic (address "new" ∷ [])
      ≡ continue dz')
    × (find_object toy (object ∷ []) ("ns" ∷ []) "a." ≡ some obj)
    × ((toy.update_status
          (object ∷ [])
          (record obj { status = status_of toy dz' (soa_serial 5000) })).1
        ≡ none)
    × (after.1.cluster
        ≡ (toy.update_status
            (object ∷ [])
            (record obj { status = status_of toy dz' (soa_serial 5000) })).0)
    × (after.1.written ≡ update_reply toy ∷ [])
handle_update_success_example =
    handle_update_success toy connection 5000 "a." dynamic addition (start (object ∷ []))
      addition_succeeds

handle_update_keeps_example :
    (handle_update toy connection 5000 "a." dynamic addition (start [])).1.zones.dynamic_zones "a."
    ≡ some (zone_of (apply_questions toy 1 dynamic (address "new" ∷ [])))
handle_update_keeps_example =
    handle_update_keeps toy connection 5000 "a." dynamic addition (start [])

update_reaches_secondaries_example :
    (m : FileZone) × (dz' : FileZone) × (apply_questions toy 1 dynamic (address "new" ∷ [])
      ≡ continue dz')
    × (after.1.notified ≡ "a." ∷ [])
    × ((serial : ℕ) → transfer toy after.1.zones "a." serial ≡ toy.transfer_zone m serial)
    × ((x : Rr) → Holds toy toy_laws m x ↔ (Holds toy toy_laws static x ⊎ Holds toy toy_laws dz' x))
    × (toy.apex_if_defined m ≡ ok (soa ∷ []))
    × (after.1.soa_serials 7 ≡ soa_serial 5000)
update_reaches_secondaries_example =
    update_reaches_secondaries toy toy_laws connection 5000 "a." static dynamic addition
      (start (object ∷ [])) table-IsServable refl refl (soa ∷ []) soa 7 addition_succeeds refl refl
      (inl refl) refl

addition_succeeds_later :
    (handle_update toy connection 6000 "a." dynamic addition (start (object ∷ []))).0
    ≡ rcode Dns.rcode_success
unfolding handle_update apply_questions apply_rrs apply_rr is_allowed update_type persist
    persist_found find_object finish_update merge insert_each set_serials
addition_succeeds_later = refl

serial_advances_example :
    Newer (after.1.soa_serials 7) (
      (handle_update toy connection 6000 "a." dynamic addition (start (object ∷ []))).1.soa_serials
        7)
    ↔ (6000 < 5000 + 2147483648)
serial_advances_example =
    serial_advances toy toy_laws connection "a." static dynamic dynamic addition addition
      (start (object ∷ [])) (start (object ∷ [])) (soa ∷ []) soa 7 5000 6000 table-IsServable
      table-IsServable refl refl refl refl refl (inl refl) refl addition_succeeds
      addition_succeeds_later (omega arith) (omega arith)

query_changes_nothing_example :
    (serve_dns toy connection 0 query (start [])).1
    ≡ record (start []) { written = (serve_dns toy connection 0 query (start [])).1.written }
query_changes_nothing_example =
    query_changes_nothing toy connection 0 query (start []) (λ e. absurd (omega arith))

new_is_applied :
    apply_rrs toy dynamic (address "new" ∷ [])
    ≡ continue (record { origin = "a."; tree = address "new" ∷ address "dynamic" ∷ []; apex = [] })
unfolding apply_rrs apply_rr is_allowed update_type
new_is_applied = refl

apply_rrs_continues_example :
    All (IsAcceptable toy) (address "new" ∷ [])
    × (record { origin = "a."; tree = address "new" ∷ address "dynamic" ∷ []; apex = [] }
        ≡ effects toy dynamic (address "new" ∷ []))
apply_rrs_continues_example =
    apply_rrs_continues toy dynamic
      (record { origin = "a."; tree = address "new" ∷ address "dynamic" ∷ []; apex = [] })
      (address "new" ∷ []) new_is_applied

mail_refused : is_allowed 15 ≡ false
unfolding is_allowed
mail_refused = refl

address-IsAcceptable : IsAcceptable toy (address "new")
unfolding is_allowed
address-IsAcceptable = (refl, inr (inl refl))

abbrev mail : Rr
mail = record { name = "a."; rrtype = 15; class = 1; soa = none; text = "mail" }

refused_keeps_prefix_example :
    apply_rrs toy dynamic ((address "new" ∷ []) ++ mail ∷ [])
    ≡ stop Dns.rcode_refused (effects toy dynamic (address "new" ∷ []))
refused_keeps_prefix_example =
    refused_keeps_prefix toy dynamic (address "new" ∷ []) mail [] (λ p q. refl, tt)
      (address-IsAcceptable, tt) mail_refused
