-- ===== src/Bot/Bans.antt =====
-- Whom the intrusion handler bans, and what it reports.
use telegram_server.Prelude.{
  ℕ, Bool, true, false, not, ◌&&◌, ◌==◌, ◌∷◌, Option, none, some, eq_iff, ◌≡◌, ◌≢◌, refl, ap, ◌⊎◌,
  arith, Bool-cases, Option-cases, inl, inr,
}
use telegram_server.Audit.Event.{Event}
use telegram_server.Registry.{UserRow}
use telegram_server.Registry.Supergroups.{find_user_by_chat_id}
use telegram_server.Bot.{
  BotEnv, BotWorld, Handled, consumed, failed, Update, ChatMember, member_status, member_user,
  MemberUpdate, Answer, call_fails, returned, thread, ban_chat_member, length_of, tell, write_event,
}
use telegram_server.Bot.Startgroup.{is_group}
use telegram_server.Bot.Intrusion.{
  kick_event, unmitigated_event, report_ban, is_intruder, judge, guard_group, handle,
}

-- Why a change of a chat's member is let be.
pub data Exempt (env : BotEnv) (m : MemberUpdate) (w : BotWorld) : Type 0 where
  no_group : is_group m.chat ≡ false → Exempt env m w
  unknown_group : find_user_by_chat_id m.chat.id w.db ≡ none → Exempt env m w
  no_member : m.new_chat_member ≡ none → Exempt env m w
  the_bot :
      (c : ChatMember)
      → m.new_chat_member ≡ some c
      → env.bot_id ≢ 0
      → member_user c ≡ env.bot_id
      → Exempt env m w
  other_status :
      (c : ChatMember)
      → m.new_chat_member ≡ some c
      → member_status c ≢ "member"
      → member_status c ≢ "restricted"
      → Exempt env m w

-- What the ban's answer makes of the handler's result and of the audit.
pub record Reported (env : BotEnv) (ok : ℕ → Bool) (user chat intruder : ℕ) (w : BotWorld)
    (r : BotWorld × Handled) : Type 0 where
  pub db : r.0.db ≡ w.db
  pub calls : r.0.calls ≡ ban_chat_member chat intruder ∷ w.calls
  pub reported :
      ((env.telegram w.made (ban_chat_member chat intruder) ≡ call_fails)
        × ((r.1 ≡ failed)
            × (r.0.events
                ≡ (unmitigated_event user chat intruder, ok (length_of w.events)) ∷ w.events)))
      ⊎ ((env.telegram w.made (ban_chat_member chat intruder) ≢ call_fails)
          × ((r.1 ≡ consumed)
              × (r.0.events ≡ (kick_event user chat intruder, ok (length_of w.events)) ∷ w.events)))

-- Whether the member is the group's own user.
abbrev pub Stranger : ℕ → ℕ → Type 0
Stranger member owner = member ≢ owner

abbrev pub Owner : ℕ → ℕ → Type 0
Owner member owner = member ≡ owner

-- A member that is neither the bot nor anything but a plain or restricted member, in the group of
-- a user, is banned. `Who` relates the member to the group's user.
pub record Banned (Who : ℕ → ℕ → Type 0) (env : BotEnv) (ok : ℕ → Bool) (m : MemberUpdate)
    (w : BotWorld) (r : BotWorld × Handled) : Type 0 where
  pub user : UserRow
  pub member : ChatMember
  pub in_group : is_group m.chat ≡ true
  pub owned : find_user_by_chat_id m.chat.id w.db ≡ some user
  pub joined : m.new_chat_member ≡ some member
  pub status : (member_status member ≡ "member") ⊎ (member_status member ≡ "restricted")
  pub not_bot : (env.bot_id ≡ 0) ⊎ (member_user member ≢ env.bot_id)
  pub who : Who (member_user member) user.telegram_id
  pub outcome : Reported env ok user.id m.chat.id (member_user member) w r

module _ (env : BotEnv) (ok : ℕ → Bool) (audited : env.audit ≡ some ok) where
  noted :
      (e : Event) (w : BotWorld)
      → write_event env e w ≡ record w { events = (e, ok (length_of w.events)) ∷ w.events }
  unfolding write_event
  noted e w = rw (audited, write_event) refl

  report_ban-Reported :
      (user chat intruder : ℕ) (w : BotWorld) (a : Answer)
      → env.telegram w.made (ban_chat_member chat intruder) ≡ a
      → Reported env ok user chat intruder w
          (report_ban env user chat intruder ((tell env (ban_chat_member chat intruder) w).0, a))
  unfolding report_ban tell
  report_ban-Reported user chat intruder w call_fails e =
      let n =
        noted (unmitigated_event user chat intruder)
          (tell env (ban_chat_member chat intruder) w).0 in
      record {
        db = ap (λ v. v.db) n;
        calls = ap (λ v. v.calls) n;
        reported = inl (e, (refl, ap (λ v. v.events) n));
      }
  report_ban-Reported user chat intruder w returned e =
      let n =
        noted (kick_event user chat intruder) (tell env (ban_chat_member chat intruder) w).0 in
      record {
        db = ap (λ v. v.db) n;
        calls = ap (λ v. v.calls) n;
        reported = inr ((λ f. cc), (refl, ap (λ v. v.events) n));
      }
  report_ban-Reported user chat intruder w (thread id) e =
      let n =
        noted (kick_event user chat intruder) (tell env (ban_chat_member chat intruder) w).0 in
      record {
        db = ap (λ v. v.db) n;
        calls = ap (λ v. v.calls) n;
        reported = inr ((λ f. cc), (refl, ap (λ v. v.events) n));
      }

intruder-conditions :
    (env : BotEnv) (c : ChatMember)
    → is_intruder env c ≡ true
    → ((member_status c ≡ "member") ⊎ (member_status c ≡ "restricted"))
      × ((env.bot_id ≡ 0) ⊎ (member_user c ≢ env.bot_id))
unfolding is_intruder
intruder-conditions env c h =
    grind (arith, eq_iff (member_status c) "member", eq_iff (member_status c) "restricted")

spared-Exempt :
    (env : BotEnv) (m : MemberUpdate) (w : BotWorld) (c : ChatMember)
    → m.new_chat_member ≡ some c
    → is_intruder env c ≡ false
    → Exempt env m w
unfolding is_intruder
spared-Exempt env m w c e h =
    elim (Bool-cases (not (env.bot_id == 0) && member_user c == env.bot_id)) [
      | inl b ↦ the_bot c e (λ z. ground arith) (ground arith)
      | inr b ↦
          other_status c e (λ s. ground (arith, eq_iff (member_status c) "member"))
            (λ s. ground (arith, eq_iff (member_status c) "restricted"))
    ]

module _ (env : BotEnv) (ok : ℕ → Bool) (audited : env.audit ≡ some ok) where
  judged :
      (Who : ℕ → ℕ → Type 0) (m : MemberUpdate) (user : UserRow) (w : BotWorld) (c : ChatMember)
      → is_group m.chat ≡ true
      → find_user_by_chat_id m.chat.id w.db ≡ some user
      → m.new_chat_member ≡ some c
      → ((member_status c ≡ "member") ⊎ (member_status c ≡ "restricted"))
        × ((env.bot_id ≡ 0) ⊎ (member_user c ≢ env.bot_id))
      → Who (member_user c) user.telegram_id
      → Banned Who env ok m w (
          report_ban env user.id m.chat.id
            (member_user c)
            (tell env (ban_chat_member m.chat.id (member_user c)) w))
  unfolding tell
  judged Who m user w c g f e met who = record {
    user = user;
    member = c;
    in_group = g;
    owned = f;
    joined = e;
    status = met.0;
    not_bot = met.1;
    who = who;
    outcome = report_ban-Reported env ok audited user.id m.chat.id (member_user c) w _ refl;
  }

  judge-outcome :
      (m : MemberUpdate) (user : UserRow) (w : BotWorld) (o : Option ChatMember)
      → is_group m.chat ≡ true
      → find_user_by_chat_id m.chat.id w.db ≡ some user
      → m.new_chat_member ≡ o
      → Banned Stranger env ok m w (judge env user.id m.chat.id o w)
        ⊎ Banned Owner env ok m w (judge env user.id m.chat.id o w)
        ⊎ (Exempt env m w × (judge env user.id m.chat.id o w ≡ (w, consumed)))
  unfolding judge
  judge-outcome m user w none g f e = inr (inr (no_member e, refl))
  judge-outcome m user w (some c) g f e = elim (Bool-cases (is_intruder env c)) [
    | inl b ↦
        let met = intruder-conditions env c b in
        rw (b, judge)
          (elim (Bool-cases (member_user c == user.telegram_id)) [
            | inl same ↦ inr (inl (judged Owner m user w c g f e met (ground arith)))
            | inr other ↦ inl (judged Stranger m user w c g f e met (λ q. ground arith))
          ])
    | inr b ↦ rw (b, judge) (inr (inr (spared-Exempt env m w c e b, refl)))
  ]

  guard_group-outcome :
      (m : MemberUpdate) (w : BotWorld)
      → Banned Stranger env ok m w (guard_group env m w)
        ⊎ Banned Owner env ok m w (guard_group env m w)
        ⊎ (Exempt env m w × (guard_group env m w ≡ (w, consumed)))
  unfolding guard_group
  guard_group-outcome m w = elim (Bool-cases (is_group m.chat)) [
    | inr g ↦ rw (g, guard_group) (inr (inr (no_group g, refl)))
    | inl g ↦ elim (Option-cases (find_user_by_chat_id m.chat.id w.db)) [
      | inl f ↦ rw (g, f, guard_group) (inr (inr (unknown_group f, refl)))
      | inr (user, f) ↦ rw (g, f, guard_group) (judge-outcome m user w m.new_chat_member g f refl)
    ]
  ]

-- With an audit writer, a change of a chat's member has one of three ends. A plain or restricted
-- member that is neither the bot nor the group's own user, in a group that is some user's, is banned
-- by one call; the database stays; one event is written, that of a kick where the ban succeeds, and
-- that of an unmitigated intrusion where it fails, which is then the handler's error. The group's
-- own user, who comes back as a plain or restricted member, gets the very same, though the source's
-- comment exempts the owner. Any other change leaves the world as it was: in a chat that is no group
-- or no user's, without a new member, of the bot itself, or to another status.
pub handle-Banned :
    (env : BotEnv) (ok : ℕ → Bool) (u : Update) (m : MemberUpdate) (w : BotWorld)
    → env.audit ≡ some ok
    → u.chat_member ≡ some m
    → Banned Stranger env ok m w (handle env u w)
      ⊎ Banned Owner env ok m w (handle env u w)
      ⊎ (Exempt env m w × (handle env u w ≡ (w, consumed)))
unfolding handle
handle-Banned env ok u m w audited e = rw (e, handle) (guard_group-outcome env ok audited m w)
