-- ===== src/Worker/Invariant/Effects.antt =====
-- The single effects of an item's task are calm changes.
use rubigram.Base.{◌==◌, cut, ℕ, String, ◌≡◌, refl, Bool, false, Option, none, some, List, arith}
use rubigram.Worker.Model.{ItemStatus, Job, Item, is_reserved}
use rubigram.Worker.Db.{Task, Db, update_job, enqueue}
use rubigram.Worker.Jobs.{
  first_count, with_counts, save_job_member_counts, Seen, mark_membership,
  create_auto_leave_if_needed, refreshed, refresh_job_counts,
}
use rubigram.Worker.Items.{
  bump_count, finish_item, throttle_account, disable_account, store_session, refresh_credential,
  record_view, lacks_guid, with_guid, fill_object_guid,
}
use rubigram.Worker.Invariant.Kept.{
  JobKept, Calm, Calm-trans, Calm-same, Calm-refl, Calm-jobs, Calm-items, Calm-if,
}

pub enqueue-Calm : (tasks : List Task) (db : Db) → Calm db (enqueue tasks db)
enqueue-Calm tasks db = Calm-same refl refl refl refl

pub update_job-Calm :
    (id : ℕ) (f : Job → Job) (db : Db)
    → ((j : Job) → JobKept j (f j))
    → Calm db (update_job id f db)
update_job-Calm id f db h = Calm-jobs (λ j. j.id == id) f db h

pub bump_count-kept :
    (now : ℕ) (st : ItemStatus) (j : Job)
    → JobKept j (record (bump_count st j) { updated_at = now })
unfolding bump_count
bump_count-kept now ItemStatus.success j = ground arith
bump_count-kept now st j = ground arith

pub finish_item-Calm :
    (now : ℕ) (i : Item) (st : ItemStatus) (title message : String) (db : Db)
    → is_reserved st ≡ false
    → Calm db (finish_item now i st title message db)
unfolding finish_item
finish_item-Calm now i st title message db ended = rw ended (
    Calm-trans
      (Calm-items (λ k. k.id == i.id)
        (λ k. record k {
          status = st;
          group_title = cut 255 title;
          message = message;
          finished_at = some now;
        })
        db (λ k. (refl, refl)))
      (update_job-Calm i.job_id _ _ (bump_count-kept now st)))

pub throttle_account-Calm : (now a span : ℕ) (db : Db) → Calm db (throttle_account now a span db)
unfolding throttle_account
throttle_account-Calm now a span db =
    Calm-same (ground arith) (ground arith) (ground arith) (ground arith)

pub disable_account-Calm :
    (a : ℕ) (reason : String) (db : Db) → Calm db (disable_account a reason db)
unfolding disable_account
disable_account-Calm a reason db = Calm-same refl refl refl refl

pub refresh_credential-Calm :
    (a : ℕ) (session : Option String) (db : Db) → Calm db (refresh_credential a session db)
unfolding refresh_credential store_session
refresh_credential-Calm a none db = Calm-refl db
refresh_credential-Calm a (some session) db =
    Calm-same (ground arith) (ground arith) (ground arith) (ground arith)

pub record_view-Calm : (now a : ℕ) (key : String) (db : Db) → Calm db (record_view now a key db)
unfolding record_view
record_view-Calm now a key db =
    Calm-same (ground arith) (ground arith) (ground arith) (ground arith)

pub mark_membership-Calm :
    (now a : ℕ) (key target : String) (joined : Bool) (seen : Seen) (db : Db)
    → Calm db (mark_membership now a key target joined seen db)
unfolding mark_membership
mark_membership-Calm now a key target joined seen db =
    Calm-same (ground arith) (ground arith) (ground arith) (ground arith)

pub create_auto_leave-Calm :
    (now : ℕ) (j : Job) (i : Item) (db : Db) → Calm db (create_auto_leave_if_needed now j i db)
unfolding create_auto_leave_if_needed
create_auto_leave-Calm now j i db =
    Calm-same (ground arith) (ground arith) (ground arith) (ground arith)

pub save_job_member_counts-Calm :
    (now : ℕ) (j : Job) (before after : Option ℕ) (db : Db)
    → Calm db (save_job_member_counts now j before after db)
unfolding save_job_member_counts with_counts
save_job_member_counts-Calm now j before after db =
    Calm-if _ (Calm-refl db)
      (update_job-Calm j.id (with_counts now (first_count j before) after) db (λ k. ground arith))

pub fill_object_guid-Calm :
    (id : ℕ) (guid : String) (db : Db) → Calm db (fill_object_guid id guid db)
unfolding fill_object_guid
fill_object_guid-Calm id guid db = Calm-jobs (lacks_guid id) (with_guid guid) db (λ j. ground arith)

pub refreshed-kept : (now : ℕ) (items : List Item) (j : Job) → JobKept j (refreshed now items j)
unfolding refreshed
refreshed-kept now items j = ground arith

pub refresh_job_counts-Calm : (now id : ℕ) (db : Db) → Calm db (refresh_job_counts now id db)
unfolding refresh_job_counts
refresh_job_counts-Calm now id db =
    update_job-Calm id (refreshed now db.items) db (refreshed-kept now db.items)
