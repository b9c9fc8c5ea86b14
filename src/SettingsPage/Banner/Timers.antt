-- ===== src/SettingsPage/Banner/Timers.antt =====
-- At most one timer is live, and a message is cleared by its own timer only.
use huntarr.Base.{
  ℕ, ◌<◌, String, List, [], ◌∷◌, Option, none, some, ◌==◌, ==_iff, contains, ap, Bool-cases, ◌≡◌,
  refl, arith, ◌⊎◌, inl, inr, false,
}
use huntarr.SettingsPage.Banner.{
  Banner, initial_banner, remove_timer, clear_timeout, show_message, timer_fires, clear_message,
  destroy,
}

-- What can happen to the banner.
pub data Event : Type 0 where
  shown : String → String → Event
  fired : ℕ → Event
  cleared destroyed : Event

abbrev pub handle : Event → Banner → Banner
handle (shown msg type) b = show_message msg type b
handle (fired t) b = timer_fires t b
handle cleared b = clear_message b
handle destroyed b = destroy b

unfoldable pub run : List Event → Banner → Banner
run [] b = b
run (e ∷ es) b = run es (handle e b)

-- No live timer, or just the one that was set last.
abbrev pub IsCurrent : List ℕ → Option ℕ → Type 0
IsCurrent live none = live ≡ []
IsCurrent live (some t) = (live ≡ []) ⊎ (live ≡ t ∷ [])

abbrev pub IsPast : ℕ → Option ℕ → Type 0
IsPast next none = Unit
IsPast next (some t) = t < next

pub record IsValid (b : Banner) : Type 0 where
  pub current : IsCurrent b.live b.message_timer
  pub past : IsPast b.next_timer b.message_timer

pub initial_banner-IsValid : IsValid initial_banner
initial_banner-IsValid = record { current = refl; past = tt }

clear_timeout_current :
    (live : List ℕ) (t : Option ℕ) → IsCurrent live t → clear_timeout t live ≡ []
unfolding clear_timeout
clear_timeout_current live none h = h
clear_timeout_current live (some t) (inl h) = rw h
clear_timeout_current live (some t) (inr h) = rw (h, (==_iff t t).1 refl)

nil-IsCurrent : (t : Option ℕ) → IsCurrent [] t
nil-IsCurrent none = refl
nil-IsCurrent (some t) = inl refl

remove_timer-IsCurrent :
    (t : ℕ) (live : List ℕ) (c : Option ℕ) → IsCurrent live c → IsCurrent (remove_timer t live) c
unfolding remove_timer
remove_timer-IsCurrent t live none h = rw h
remove_timer-IsCurrent t live (some c) (inl h) = rw h (inl refl)
remove_timer-IsCurrent t live (some c) (inr h) = elim (Bool-cases (c == t)) [
  | inl e ↦ rw (h, e) (inl refl)
  | inr e ↦ rw (h, e) (inr refl)
]

handle-IsValid : (e : Event) (b : Banner) → IsValid b → IsValid (handle e b)
unfolding show_message timer_fires clear_message destroy
handle-IsValid (shown msg type) b v = record {
  current = inr (
      ap (λ (l : List ℕ). b.next_timer ∷ l)
        (clear_timeout_current b.live b.message_timer v.current));
  past = omega arith;
}
handle-IsValid (fired t) b v = elim (Bool-cases (contains b.live t)) [
  | inl e ↦ rw e (record {
    current = remove_timer-IsCurrent t b.live b.message_timer v.current;
    past = v.past;
  })
  | inr e ↦ rw e v
]
handle-IsValid cleared b v = record { current = v.current; past = v.past }
handle-IsValid destroyed b v = record {
  current =
      rw (clear_timeout_current b.live b.message_timer v.current) (nil-IsCurrent b.message_timer);
  past = v.past;
}

-- Whatever happens to the banner, at most one timer is live, the one that was set last.
pub run-IsValid : (es : List Event) (b : Banner) → IsValid b → IsValid (run es b)
unfolding run
run-IsValid [] b v = v
run-IsValid (e ∷ es) b v = run-IsValid es (handle e b) (handle-IsValid e b v)

show_message-live :
    (msg type : String) (b : Banner)
    → IsValid b
    → (show_message msg type b).live ≡ b.next_timer ∷ []
unfolding show_message
show_message-live msg type b v =
    ap (λ (l : List ℕ). b.next_timer ∷ l) (clear_timeout_current b.live b.message_timer v.current)

show_message-message : (msg type : String) (b : Banner) → (show_message msg type b).message ≡ msg
unfolding show_message
show_message-message msg type b = refl

-- After any events, a message that is shown is not cleared by the timer of an earlier message, and
-- is cleared by its own.
pub timer_fires-show_message :
    (es : List Event) (msg type : String) (t : ℕ)
    → t < (run es initial_banner).next_timer
    → let b = run es initial_banner in
      ((timer_fires t (show_message msg type b)).message ≡ msg)
      × ((timer_fires b.next_timer (show_message msg type b)).message ≡ "")
unfolding timer_fires
timer_fires-show_message es msg type t h =
    let b = run es initial_banner in
    let live =
      show_message-live msg type b (run-IsValid es initial_banner initial_banner-IsValid) in
    let other : (b.next_timer == t) ≡ false = ground arith in
    (
      rw (live, other) (show_message-message msg type b),
      rw (live, (==_iff b.next_timer b.next_timer).1 refl),
    )
