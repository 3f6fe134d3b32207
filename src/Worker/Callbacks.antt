-- ===== src/Worker/Callbacks.antt =====
-- membership_worker/worker/jobs.py: the payloads that tell the panel about an order.
use rubigram.Base.{
  if◌then◌else◌, Bool-cases, any, has_prefix, decimal, ℕ, String, append_text, ◌≡◌, refl, inl, inr,
  Bool, true, false, ◌&&◌, Option, none, some, List, [], ◌∷◌, ◌++◌, str_eq,
}
use rubigram.Base.Int.{ℤ}
use rubigram.Worker.Model.{
  active, JobStatus, inprogress, partial, ItemStatus, running, success, skipped, Job, Item,
}

-- The values of a payload.
pub data Json : Type 0 where
  text : String → Json
  number : ℕ → Json
  integer : ℤ → Json
  null : Json

abbrev pub status_text : JobStatus → String
status_text JobStatus.pending = "pending"
status_text inprogress = "inprogress"
status_text active = "active"
status_text JobStatus.completed = "completed"
status_text partial = "partial"
status_text JobStatus.fail = "fail"
status_text JobStatus.error = "error"

abbrev pub item_status_text : ItemStatus → String
item_status_text ItemStatus.pending = "pending"
item_status_text running = "running"
item_status_text success = "success"
item_status_text ItemStatus.failed = "failed"
item_status_text skipped = "skipped"

abbrev optional_number : Option ℕ → Json
optional_number none = null
optional_number (some n) = number n

abbrev part_name : Option Item → String
part_name none = "job"
part_name (some i) = decimal i.id

-- FAIL and PARTIAL, with a cause that the customer can act on
unfoldable pub has_error : Job → Bool
has_error j =
    (elim j.status [ JobStatus.fail ↦ true | partial ↦ true | _ ↦ false ])
    && has_prefix "invalid_target" j.last_error

unfoldable pub counters : Job → List (String × Json)
counters j =
    ("status", text (status_text j.status))
    ∷ ("total_count", number j.total_count)
    ∷ ("accepted_count", number j.accepted_count)
    ∷ ("success_count", number j.success_count)
    ∷ ("failed_count", number j.failed_count)
    ∷ ("skipped_count", number j.skipped_count)
    ∷ ("member_count_before", optional_number j.member_count_before)
    ∷ ("member_count_after", optional_number j.member_count_after)
    ∷ []

unfoldable pub job_status_payload : Job → List (String × Json)
job_status_payload j =
    ("remote_order_id", text (decimal j.id))
    ∷ ("external_order_id", integer j.external_order_id)
    ∷ counters j

unfoldable pub item_entries : Option Item → List (String × Json)
item_entries none = []
item_entries (some i) =
    ("item_id", number i.id)
    ∷ ("account_id", text (decimal i.account_id))
    ∷ ("item_status", text (item_status_text i.status))
    ∷ ("message", text i.message)
    ∷ ("group_title", text i.group_title)
    ∷ []

-- `INVALID_TARGET_MESSAGE` is the text shown to the customer, `timestamp` the time in ISO format.
module _ (provider invalid_target_message timestamp : String) where
  unfoldable pub build_callback_payload : Job → String → Option Item → List (String × Json)
  build_callback_payload j event i =
      (
        "event_id",
        text (
            append_text event
              (append_text "-" (append_text (decimal j.id) (append_text "-" (part_name i))))),
      )
      ∷ ("event", text event)
      ∷ ("external_order_id", integer j.external_order_id)
      ∷ ("remote_order_id", text (decimal j.id))
      ∷ ("provider", text provider)
      ∷ (counters j
          ++ (("timestamp", text timestamp)
              ∷ ((if has_error j then ("error", text invalid_target_message) ∷ [] else [])
                  ++ item_entries i)))

abbrev pub has_key : String → List (String × Json) → Bool
has_key key = any (λ e. str_eq e.0 key)

item_entries-no_error : (i : Option Item) → has_key "error" (item_entries i) ≡ false
unfolding item_entries
item_entries-no_error none = refl
item_entries-no_error (some i) = refl

-- A callback names an error exactly for an order that is FAIL or PARTIAL with `invalid_target` at the
-- start of its last error, whether or not it is about an item.
pub build_callback_payload-error :
    (provider message timestamp event : String) (j : Job) (i : Option Item)
    → has_key "error" (build_callback_payload provider message timestamp j event i) ≡ has_error j
unfolding build_callback_payload counters
build_callback_payload-error provider message timestamp event j i =
    elim (Bool-cases (has_error j)) [
      | inl e ↦ rw (e, build_callback_payload) refl
      | inr e ↦ rw (e, build_callback_payload) (item_entries-no_error i)
    ]
