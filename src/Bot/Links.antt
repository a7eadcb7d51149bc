-- ===== src/Bot/Links.antt =====
-- How a user gets a group: by a token that was issued to it, and in no other way.
pub mod Kept
pub mod Rows
pub mod Redeem
use telegram_server.Prelude.{
  ℕ, ◌≤◌, String, Bool, true, false, not, ◌&&◌, ◌||◌, ◌==◌, List, [], ◌∷◌, ◌++◌, All, Option, none,
  some, str_eq, ltb, if◌then◌else◌, ◌≡◌, ◌≢◌, refl, sym, ap, ◌∙◌, ◌⊎◌, arith, Bool-cases,
  Option-cases, inl, inr,
}
use telegram_server.Registry.{UserRow, UserTable, update}
use telegram_server.Registry.Supergroups.{
  Consumed, token_not_found, token_expired, consumed_by, redeem, consume_token, find_token,
  link_supergroup, update_users, is_linkable, linked_row,
}
use telegram_server.Database.{Database, PendingToken, keep}
use telegram_server.Bot.{
  BotEnv, BotWorld, Update, Message, Handled, passed, consumed, failed, Answer, call_fails,
  returned, thread, outcome_of, reply,
}
use telegram_server.Bot.Startgroup
use telegram_server.Bot.Promote
use telegram_server.Bot.Intrusion
use telegram_server.Bot.Apps
use telegram_server.Bot.Start
use telegram_server.Bot.Poller.{Handler, dispatch, handlers}
use telegram_server.Bot.Links.Kept.{link_of, reply-db, intrusion-db, apps-users}
use telegram_server.Bot.Links.Rows.{group_of, promote_handler-link, start_handler-link}
use telegram_server.Bot.Links.Redeem.{Redeemed, startgroup-changes, startgroup-passed}

-- Handlers that leave the group of a user as it is.
record Spares (id : ℕ) (h : Handler) : Type 0 where
  spares : (u : Update) (w : BotWorld) → group_of id (h u w).0 ≡ group_of id w

dispatch-Spares :
    (id : ℕ) (hs : List Handler) (u : Update) (w : BotWorld)
    → All (Spares id) hs
    → group_of id (dispatch hs u w) ≡ group_of id w
unfolding dispatch
dispatch-Spares id [] u w k = refl
dispatch-Spares id (h ∷ hs) u w (k, ks) =
    chosen (h u w) (k.spares u w) (dispatch-Spares id hs u (h u w).0 ks)
  where
    chosen :
        (s : BotWorld × Handled)
        → group_of id s.0 ≡ group_of id w
        → group_of id (dispatch hs u s.0) ≡ group_of id s.0
        → group_of id (elim s.1 [ passed ↦ dispatch hs u s.0 | consumed ↦ s.0 | failed ↦ s.0 ])
          ≡ group_of id w
    chosen (v, passed) e rest = rest ∙ e
    chosen (v, consumed) e rest = e
    chosen (v, failed) e rest = e

others-Spares :
    (env : BotEnv) (id now : ℕ) (token : Option String)
    → All (Spares id) (
        Promote.handle env now
        ∷ Intrusion.handle env
        ∷ Apps.handle env
        ∷ Start.handle env now token
        ∷ [])
others-Spares env id now token = (
  record { spares = λ u w. promote_handler-link id env now u w },
  (
    record { spares = λ u w. ap (λ d. link_of id d.users.users) (intrusion-db env u w) },
    (
      record { spares = λ u w. ap (λ t. link_of id t.users) (apps-users env u w) },
      (record { spares = λ u w. start_handler-link id env now token u w }, tt),
    ),
  ),
)

-- Whatever update the poller dispatches, a user's group stays what it is, or the update is a
-- message from a group with a token that was issued to this user, was pending and has not expired:
-- the user's group is then the one that the message came from, and the token is not pending any more.
pub group_changes-Redeemed :
    (env : BotEnv) (now : ℕ) (token : Option String) (u : Update) (w : BotWorld) (id : ℕ)
    → (group_of id (dispatch (handlers env now token) u w) ≡ group_of id w)
      ⊎ Redeemed now u w id (dispatch (handlers env now token) u w)
unfolding dispatch Startgroup.handle
group_changes-Redeemed env now token u w id =
    chosen (Startgroup.take_message env now u.message w) (startgroup-passed env now u.message w)
      (startgroup-changes env id now u w)
  where
    others : List Handler
    others =
        Promote.handle env now
        ∷ Intrusion.handle env
        ∷ Apps.handle env
        ∷ Start.handle env now token
        ∷ []

    chosen :
        (s : BotWorld × Handled)
        → (s.1 ≡ passed → s.0 ≡ w)
        → (group_of id s.0 ≡ group_of id w) ⊎ Redeemed now u w id s.0
        → (group_of id (elim s.1 [ passed ↦ dispatch others u s.0 | consumed ↦ s.0 | failed ↦ s.0 ])
            ≡ group_of id w)
          ⊎ Redeemed now u w id
              (elim s.1 [ passed ↦ dispatch others u s.0 | consumed ↦ s.0 | failed ↦ s.0 ])
    chosen (v, passed) same r = inl (
        dispatch-Spares id others u v (others-Spares env id now token)
        ∙ ap (group_of id) (same refl))
    chosen (v, consumed) same r = r
    chosen (v, failed) same r = r
