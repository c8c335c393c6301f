-- ===== src/Api/Demo/Life.antt =====
-- What holds of the demo page of src/api/main.py in every state that it can come to.
use aiops_distributed_log.Prelude.{
  ◌+◌, ◌-◌, ◌≤◌, ◌<◌, ◌≡◌, ◌⊎◌, refl, inl, inr, Option-cases, String, some, arith, if◌then◌else◌,
}
use native.Mathlib.Decide.{dec_lt}
use aiops_distributed_log.Api.Json.{Json, null, bool, num, str, arr, obj, or_else}
use aiops_distributed_log.Api.Demo.{
  Node, notice, live, failed, reconnecting, Page, loaded, children, append_row, is_fatal, Browser,
  with_text, prop, show_alert, on_data, on_message, on_open, on_close, Step, opens, receives, fails,
  closes, gives_up, reconnects, clears, Reach, here, next,
}
use aiops_distributed_log.Api.Demo.Feed.{append_row_lem}

-- One socket is under way, or one timer is set; a live badge means that the socket is open.
pub record IsSound (p : Page) : Type 0 where
  pub fatal_le : p.fatal ≤ p.total
  pub short : children p.feed ≤ 200
  pub single : p.connecting + p.opened + p.timers ≡ 1
  pub truthful : p.badge ≡ live → p.opened ≡ 1

append_row-IsSound : (n : Node) {p : Page} → IsSound p → IsSound (append_row n p)
unfolding append_row
append_row-IsSound n {p} s = record {
  fatal_le = s.fatal_le;
  short = omega (arith, append_row_lem n p);
  single = s.single;
  truthful = s.truthful;
}

module _ {Number : Type 0} (b : Browser Number) where
  open b use {is_zero, to_upper}

  with_text_lem :
      (P : Page → Type 0) (j : Json Number) (rest : String → Page) (p : Page)
      → P p
      → ((s : String) → P (rest s))
      → P (with_text b j rest p)
  with_text_lem P (str s) rest p h k = k s
  with_text_lem P null rest p h k = h
  with_text_lem P (bool x) rest p h k = h
  with_text_lem P (num n) rest p h k = h
  with_text_lem P (arr xs) rest p h k = h
  with_text_lem P (obj fs) rest p h k = h

  show_alert-IsSound :
      (data' : Json Number) (sev : String) {p : Page}
      → p.fatal < p.total
      → IsSound p
      → IsSound (show_alert b data' sev p)
  unfolding show_alert
  show_alert-IsSound data' sev {p} h s =
      let p' = record p { fatal = if is_fatal sev then p.fatal + 1 else p.fatal } in
      let s' : IsSound p' = ground arith in
      with_text_lem IsSound _ _ p' s' (λ message. append_row-IsSound _ s')

  alert-IsSound :
      (data' : Json Number) {p : Page}
      → IsSound p
      → let p' = record p { total = p.total + 1 } in
        IsSound (
          with_text b
            (or_else is_zero (prop b data' "severity") (str "INFO"))
            (λ sev. show_alert b data' (to_upper sev) p')
            p')
  alert-IsSound data' {p} s =
      let p' = record p { total = p.total + 1 } in
      let s' : IsSound p' = ground arith in
      with_text_lem IsSound _ _ p' s'
        (λ sev. show_alert-IsSound data' (to_upper sev) (omega (arith, s.fatal_le)) s')

  on_data-IsSound : (data' : Json Number) {p : Page} → IsSound p → IsSound (on_data b data' p)
  unfolding on_data
  on_data-IsSound null s = s
  on_data-IsSound data' {p} s = ground (
    arith,
    alert-IsSound data' s,
    append_row-IsSound (notice (b.show (prop b data' "message"))) s,
  )

  on_message-IsSound : (ev : String) {p : Page} → IsSound p → IsSound (on_message b ev p)
  unfolding on_message
  on_message-IsSound ev {p} s = elim (Option-cases (b.parse ev)) [
    | inl syntax ↦ ground arith
    | inr (j, e) ↦ rw (e, on_message) (on_data-IsSound j s)
  ]

  on_open-IsSound :
      (p : Page) (now : String)
      → 0 < p.connecting
      → IsSound p
      → IsSound (on_open b now (record p { connecting = p.connecting - 1; opened = p.opened + 1 }))
  unfolding on_open append_row
  on_open-IsSound p now h s =
      let p' = record p {
        connecting = p.connecting - 1;
        opened = p.opened + 1;
        badge = live;
        since = some now;
      } in
      record {
        fatal_le = s.fatal_le;
        short = omega (arith, append_row_lem (notice "✅ Stream connected.") p');
        single = omega (arith, s.single);
        truthful = λ e. omega (arith, s.single);
      }

  -- A socket that was under way is none any more.
  on_close-IsSound :
      (p : Page)
      → p.fatal ≤ p.total
      → p.connecting + p.opened + p.timers ≡ 0
      → IsSound (on_close b p)
  unfolding on_close append_row
  on_close-IsSound p h none_left =
      let p' = record p { badge = reconnecting } in
      record {
        fatal_le = h;
        short =
            omega (arith, append_row_lem (notice "⚠ Stream disconnected. Reconnecting in 5s…") p');
        single = omega arith;
        truthful = λ (e : reconnecting ≡ live). absurd (ground arith);
      }

  Step-IsSound : {p q : Page} → Step b p q → IsSound p → IsSound q
  Step-IsSound (opens p now h) s = on_open-IsSound p now h s
  Step-IsSound (receives p ev h) s = on_message-IsSound ev s
  Step-IsSound (fails p h) s = record {
    fatal_le = s.fatal_le;
    short = s.short;
    single = s.single;
    truthful = λ (e : failed ≡ live). absurd (ground arith);
  }
  Step-IsSound (closes p h) s = on_close-IsSound _ s.fatal_le (omega (arith, s.single))
  Step-IsSound (gives_up p h) s = on_close-IsSound _ s.fatal_le (omega (arith, s.single))
  Step-IsSound (reconnects p h) s = ground arith
  Step-IsSound (clears p) s = ground arith

  pub Reach-IsSound : {p : Page} → Reach b loaded p → IsSound p
  Reach-IsSound here = ground arith
  Reach-IsSound (next r st) = Step-IsSound st (Reach-IsSound r)

  -- Once the socket is closed or closes, the page comes back.
  after_close :
      (p : Page) (now : String) → 0 < p.timers → (q : Page) × Reach b p q × (q.badge ≡ live)
  unfolding on_open append_row
  after_close p now h =
      let p' = record p { timers = p.timers - 1; connecting = p.connecting + 1 } in
      (_, next (next here (reconnects p h)) (opens p' now (omega arith)), refl)

  Reach-trans : {p q r : Page} → Reach b p q → Reach b q r → Reach b p r
  Reach-trans h here = h
  Reach-trans h (next r st) = next (Reach-trans h r) st

  comes_back : (p : Page) → IsSound p → (0 < p.connecting) ⊎ (0 < p.opened) ⊎ (0 < p.timers)
  comes_back p s = elim (dec_lt 0 p.connecting) [
    | yes c ↦ inl c
    | no nc ↦ elim (dec_lt 0 p.opened) [
      | yes o ↦ inr (inl o)
      | no n ↦ inr (inr (omega (arith, s.single)))
    ]
  ]

  live_again :
      (p : Page)
      → (0 < p.connecting) ⊎ (0 < p.opened) ⊎ (0 < p.timers)
      → (q : Page) × Reach b p q × (q.badge ≡ live)
  unfolding on_open on_close append_row
  live_again p (inl c) = (_, next here (opens p "" c), refl)
  live_again p (inr (inr t)) = after_close p "" t
  live_again p (inr (inl o)) =
      let p' = on_close b (record p { opened = p.opened - 1 }) in
      let (q, r, l) = after_close p' "" (omega arith) in
      (q, Reach-trans (next here (closes p o)) r, l)

  -- The page is never stuck: from every state that it can come to, in which a message may have made
  -- the script raise, events of the browser lead to a live badge again.
  pub Reach-live : {p : Page} → Reach b loaded p → (q : Page) × Reach b p q × (q.badge ≡ live)
  Reach-live {p} r = live_again p (comes_back p (Reach-IsSound r))
