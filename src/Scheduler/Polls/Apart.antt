-- ===== src/Scheduler/Polls/Apart.antt =====
-- The polls of one instance, one after the other.
use huntarr.Base.{
  none-ne-some, ℕ, ◌<◌, ◌≤◌, String, true, List, [], ◌∷◌, ◌++◌, Option, none, some, if◌then◌else◌,
  lookup, insert, lookup-insert, str_eq_self, map, All, All-map, if_rule, ◌≡◌, refl, sym, ◌∙◌, ap,
  arith, subst,
}
use mathlib.Core.List.{append_assoc, append-nil}
use huntarr.Arr.Records.{HistoryRecord}
use huntarr.Arr.History.{Pages, fetch_arr_history}
use huntarr.Arr.History.Imports.{all_events}
use huntarr.Arr.History.Fetched.{fetch_arr_history-IsFetched, IsFetched}
use huntarr.Arr.History.Dates.{IsDated, fetch_arr_history-AreEarly}
use huntarr.Scheduler.Cycle.{Instance, World, Entry}
use huntarr.Scheduler.Polls.{
  PollReplies, since_or_lookback, history_entry, history_of, log_history, polled_history,
  finish_poll, poll_instance_history,
}

log_history-log :
    (inst : Instance) (records : List HistoryRecord) (w : World)
    → (log_history inst records w).log ≡ w.log ++ map (history_entry inst) records
unfolding log_history
log_history-log inst [] w = sym (append-nil w.log)
log_history-log inst (r ∷ records) w =
    log_history-log inst records (record w { log = w.log ++ history_entry inst r ∷ [] })
    ∙ append_assoc w.log (history_entry inst r ∷ []) (map (history_entry inst) records)

-- A time that all records of a list are after.
abbrev pub AreLater : ℕ → List HistoryRecord → Type 0
AreLater t records = All (λ r. t < r.date) records

-- Every record of a later poll is dated after every record of an earlier one.
abbrev pub AreApart : List (List HistoryRecord) → Type 0
AreApart [] = Unit
AreApart (batch ∷ batches) = All (λ r. All (AreLater r.date) batches) batch × AreApart batches

-- The entries of the records of all polls.
abbrev pub entries_of : Instance → List (List HistoryRecord) → List Entry
entries_of inst [] = []
entries_of inst (batch ∷ batches) = map (history_entry inst) batch ++ entries_of inst batches

pub poll_often : Instance → List PollReplies → List (String × ℕ) → World → List (String × ℕ) × World
poll_often inst [] polled w = (polled, w)
poll_often inst (r ∷ rs) polled w =
    let (polled', w') = poll_instance_history inst r polled w in poll_often inst rs polled' w'

-- No event of the pages is of the future, and the times of the polls are stored.
abbrev pub HaveHappened : ℕ → Option Pages → Type 0
HaveHappened t none = Unit
HaveHappened t (some p) = All (IsDated t) (all_events p.imported)

abbrev pub IsTimed : ℕ → List PollReplies → Type 0
IsTimed t [] = Unit
IsTimed t (r ∷ rs) =
    (t ≤ r.poll_time)
    × (r.record_ok ≡ true)
    × HaveHappened r.poll_time r.pages
    × IsTimed r.poll_time rs

IsTimed-le : (s t : ℕ) (rs : List PollReplies) → s ≤ t → IsTimed t rs → IsTimed s rs
IsTimed-le s t [] le h = tt
IsTimed-le s t (r ∷ rs) le h = (omega (arith, le, h.0), h.1, h.2, h.3)

-- The time of the last poll, 0 before the first one.
abbrev pub last_polled : Option ℕ → ℕ
last_polled none = 0
last_polled (some t) = t

since_or_lookback_le : (first : ℕ) (o : Option ℕ) → last_polled o ≤ since_or_lookback first o
since_or_lookback_le first none = omega arith
since_or_lookback_le first (some t) = ground arith

fetched-AreLater :
    (field : String) (since : ℕ) (p : Pages) (o : Option (List HistoryRecord))
    (records : List HistoryRecord)
    → IsFetched field since p o
    → o ≡ some records
    → AreLater since records
fetched-AreLater field since p none records h e = absurd (none-ne-some _ e)
fetched-AreLater field since p (some given) records h e =
    let same : given ≡ records = cc in
    subst (AreLater since) same (All-map (λ r marked. ground (arith, marked.0)) given h.1.each)

history_of-AreLater :
    (field : String) (since : ℕ) (o : Option Pages) (records : List HistoryRecord)
    → history_of field since o ≡ some records
    → AreLater since records
history_of-AreLater field since none records e = absurd (none-ne-some _ e)
history_of-AreLater field since (some p) records e =
    fetched-AreLater field since p (fetch_arr_history field since p) records
      (fetch_arr_history-IsFetched field since p) e

history_of-AreEarly :
    (field : String) (since t : ℕ) (o : Option Pages) (records : List HistoryRecord)
    → HaveHappened t o
    → history_of field since o ≡ some records
    → All (λ r. r.date ≤ t) records
history_of-AreEarly field since t none records h e = absurd (none-ne-some _ e)
history_of-AreEarly field since t (some p) records h e =
    fetch_arr_history-AreEarly t field since p records h e

-- Records that are after a time, and not later than another.
abbrev IsBetween : ℕ → ℕ → Option (List HistoryRecord) → Type 0
IsBetween s t none = Unit
IsBetween s t (some records) = AreLater s records × All (λ r. r.date ≤ t) records

polled_history-IsBetween :
    (inst : Instance) (r : PollReplies) (polled : List (String × ℕ))
    → HaveHappened r.poll_time r.pages
    → IsBetween (last_polled (lookup inst.id polled)) r.poll_time (polled_history inst r polled)
unfolding polled_history
polled_history-IsBetween inst r polled happened =
    let stored = lookup inst.id polled in
    let since = since_or_lookback r.first_time stored in
    if_rule (IsBetween (last_polled stored) r.poll_time) r.read_ok
      (history_of r.field since r.pages) none
      (λ _. read_between (history_of r.field since r.pages) refl) (λ _. tt)
  where
    read_between :
        (o : Option (List HistoryRecord))
        → history_of r.field (since_or_lookback r.first_time (lookup inst.id polled)) r.pages ≡ o
        → IsBetween (last_polled (lookup inst.id polled)) r.poll_time o
    read_between none e = tt
    read_between (some records) e =
        let since = since_or_lookback r.first_time (lookup inst.id polled) in
        let le = since_or_lookback_le r.first_time (lookup inst.id polled) in
        (
          All-map (λ x later. omega (arith, later, le)) records
              (history_of-AreLater r.field since r.pages records e),
          history_of-AreEarly r.field since r.poll_time r.pages records happened e,
        )

-- What a poll fetches: the history since the last poll, `none` if it cannot be read.
abbrev pub fetched : PollReplies → Option ℕ → Option (List HistoryRecord)
fetched r last =
    if r.read_ok then history_of r.field (since_or_lookback r.first_time last) r.pages else none

-- The batches that are fetched one after the other: each poll that can read its history fetches it
-- since the poll before it that could.
abbrev after_poll :
    ℕ
    → Option (List HistoryRecord)
    → Option ℕ
    → (Option ℕ → List (List HistoryRecord))
    → List (List HistoryRecord)
after_poll time none last rest = rest last
after_poll time (some records) last rest = records ∷ rest (some time)

abbrev pub batches_of : List PollReplies → Option ℕ → List (List HistoryRecord)
batches_of [] last = []
batches_of (r ∷ rs) last = after_poll r.poll_time (fetched r last) last (batches_of rs)

-- The entries of the batches were logged, and the batches are apart and after a time.
abbrev pub HasLogged : Instance → ℕ → List (List HistoryRecord) → World → World → Type 0
HasLogged inst t batches w w' =
    (w'.log ≡ w.log ++ entries_of inst batches) × AreApart batches × All (AreLater t) batches

add_batch :
    (inst : Instance) (s t : ℕ) (records : List HistoryRecord) (batches : List (List HistoryRecord))
    (w w' : World)
    → AreLater s records
    → All (λ r. r.date ≤ t) records
    → s ≤ t
    → HasLogged inst t batches (log_history inst records w) w'
    → HasLogged inst s (records ∷ batches) w w'
add_batch inst s t records batches w w' later early le (logged, apart, after) =
    let entries = map (history_entry inst) records in
    let all_logged : w'.log ≡ w.log ++ entries_of inst (records ∷ batches) =
      logged
      ∙ ap (λ l. l ++ entries_of inst batches) (log_history-log inst records w)
      ∙ append_assoc w.log entries (entries_of inst batches) in
    (
      all_logged,
      (
        All-map
            (λ r below.
              All-map (λ batch h. All-map (λ x lt. omega (arith, lt, below)) batch h) batches after)
            records early,
        apart,
      ),
      (later, All-map (λ batch h. All-map (λ x lt. omega (arith, lt, le)) batch h) batches after),
    )

-- What is logged of polls, by the time of the last one.
abbrev LogsOf : Instance → List PollReplies → List (String × ℕ) → World → World → Type 0
LogsOf inst rs polled w w' =
    let last = lookup inst.id polled in HasLogged inst (last_polled last) (batches_of rs last) w w'

poll_often_after :
    (inst : Instance) (r : PollReplies) (rs : List PollReplies) (polled : List (String × ℕ))
    (w : World) (o : Option (List HistoryRecord))
    → ((polled' : List (String × ℕ)) (w' : World)
        → IsTimed (last_polled (lookup inst.id polled')) rs
        → LogsOf inst rs polled' w' (poll_often inst rs polled' w').1)
    → IsBetween (last_polled (lookup inst.id polled)) r.poll_time o
    → IsTimed (last_polled (lookup inst.id polled)) (r ∷ rs)
    → HasLogged inst
        (last_polled (lookup inst.id polled))
        (after_poll r.poll_time o (lookup inst.id polled) (batches_of rs))
        w
        (poll_often inst rs (finish_poll inst r o polled w).0 (finish_poll inst r o polled w).1).1
poll_often_after inst r rs polled w none rest between h =
    rest polled w (IsTimed-le (last_polled (lookup inst.id polled)) r.poll_time rs h.0 h.3)
poll_often_after inst r rs polled w (some records) rest between h =
    let stored : lookup inst.id (insert inst.id r.poll_time polled) ≡ some r.poll_time =
      rw (lookup-insert inst.id inst.id r.poll_time polled, str_eq_self inst.id) refl in
    let w' = log_history inst records w in
    let polled' = insert inst.id r.poll_time polled in
    let next = rest polled' w' (subst (λ o. IsTimed (last_polled o) rs) (sym stored) h.3) in
    let kept : (if r.record_ok then polled' else polled) ≡ polled' = rw h.1 refl in
    subst
      (λ p.
        HasLogged inst (last_polled (lookup inst.id polled))
          (records ∷ batches_of rs (some r.poll_time)) w (poll_often inst rs p w').1)
      (sym kept)
      (add_batch inst (last_polled (lookup inst.id polled)) r.poll_time records
        (batches_of rs (some r.poll_time)) w (poll_often inst rs polled' w').1 between.0 between.1
        h.0
        (subst
          (λ o.
            HasLogged inst (last_polled o) (batches_of rs o) w' (poll_often inst rs polled' w').1)
          stored next))

-- Polls of an instance whose times do not go back and are stored each time, with an application that
-- tells of no import of the future, log the entries of the histories that they fetch, and nothing
-- else: each poll that can read its history fetches it since the time of the one before it that could;
-- the first one since the time that is stored or, without one, since a day before the time that it
-- reads. Every record is dated after the time that was stored before these polls, and after every
-- record of the histories that were fetched before its own, so what one poll has logged no later one
-- logs again.
pub poll_often-HasLogged :
    (inst : Instance) (rs : List PollReplies) (polled : List (String × ℕ)) (w : World)
    → IsTimed (last_polled (lookup inst.id polled)) rs
    → HasLogged inst
        (last_polled (lookup inst.id polled))
        (batches_of rs (lookup inst.id polled))
        w
        (poll_often inst rs polled w).1
unfolding poll_often poll_instance_history polled_history
poll_often-HasLogged inst [] polled w h = (sym (append-nil w.log), tt, tt)
poll_often-HasLogged inst (r ∷ rs) polled w h =
    poll_often_after inst r rs polled w (polled_history inst r polled)
      (λ polled' w' timed. poll_often-HasLogged inst rs polled' w' timed)
      (polled_history-IsBetween inst r polled h.2) h
