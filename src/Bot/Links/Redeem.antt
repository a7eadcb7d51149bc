-- ===== src/Bot/Links/Redeem.antt =====
-- The handler that links groups, internal/bot/handlers/startgroup.go, by the token of a message.
use telegram_server.Prelude.{
  ℕ, ◌≤◌, String, not, List, [], ◌∷◌, Option, none, some, str_eq, ◌≡◌, ◌≢◌, refl, ap, ◌∙◌, ◌⊎◌,
  arith, inl, inr,
}
use telegram_server.Registry.{UserRow, update}
use telegram_server.Registry.Supergroups.{
  Consumed, token_not_found, token_expired, consumed_by, redeem, consume_token, find_token,
  link_supergroup, update_users, is_linkable, linked_row,
}
use telegram_server.Database.{PendingToken, keep}
use telegram_server.Bot.{
  BotEnv, BotWorld, Update, Message, passed, Answer, call_fails, returned, thread, outcome_of,
  reply,
}
use telegram_server.Bot.Startgroup
use telegram_server.Bot.Links.Kept.{link_of}
use telegram_server.Bot.Links.Rows.{group_of}

-- An update's group message brings a pending token of the user that has not expired; the group
-- becomes the user's, and the token is gone.
pub record Redeemed (now : ℕ) (u : Update) (w : BotWorld) (id : ℕ) (after : BotWorld) : Type 0 where
  pub message : Message
  pub token : String
  pub pending : PendingToken
  pub brought : u.message ≡ some message
  pub read : Startgroup.token_of message ≡ some token
  pub issued : find_token token w.db.pending_supergroup_tokens ≡ some pending
  pub to_user : pending.user_id ≡ id
  pub in_time : now ≤ pending.expires_at
  pub linked : group_of id after ≡ some message.chat.id
  pub used_up : find_token token after.db.pending_supergroup_tokens ≡ none

find_token-keep :
    (token : String) (ts : List PendingToken)
    → find_token token (keep (λ (t : PendingToken). not (str_eq t.token token)) ts) ≡ none
unfolding find_token keep
find_token-keep token [] = refl
find_token-keep token (t ∷ ts) = ground (arith, find_token-keep token ts)

link_of-linked :
    (id now user chat : ℕ) (us : List UserRow)
    → (link_of id (update (is_linkable user) (linked_row now chat) us) ≡ link_of id us)
      ⊎ ((user ≡ id)
          × (link_of id (update (is_linkable user) (linked_row now chat) us) ≡ some chat))
unfolding link_of update
link_of-linked id now user chat [] = inl refl
link_of-linked id now user chat (u ∷ us) = ground (arith, link_of-linked id now user chat us)

link-changes :
    (env : BotEnv) (id now chat : ℕ) (w : BotWorld) (r : Consumed)
    → (group_of id (Startgroup.link env now chat w r).0 ≡ group_of id w)
      ⊎ ((r ≡ consumed_by id) × (group_of id (Startgroup.link env now chat w r).0 ≡ some chat))
unfolding Startgroup.link reply link_supergroup update_users
link-changes env id now chat w token_not_found = inl refl
link-changes env id now chat w token_expired = inl refl
link-changes env id now chat w (consumed_by user) =
    elim (link_of-linked id now user chat w.db.users.users) [
      | inl same ↦ inl same
      | inr (e, linked) ↦ inr (ap consumed_by e, linked)
    ]

link-pending :
    (env : BotEnv) (now chat : ℕ) (w : BotWorld) (r : Consumed)
    → (Startgroup.link env now chat w r).0.db.pending_supergroup_tokens
      ≡ w.db.pending_supergroup_tokens
unfolding Startgroup.link reply link_supergroup update_users
link-pending env now chat w token_not_found = refl
link-pending env now chat w token_expired = refl
link-pending env now chat w (consumed_by user) = refl

redeem-consumed_by :
    (now user : ℕ) (o : Option PendingToken)
    → redeem now o ≡ consumed_by user
    → (p : PendingToken) × (o ≡ some p × (p.user_id ≡ user × now ≤ p.expires_at))
redeem-consumed_by now user none h = cc
redeem-consumed_by now user (some t) h = (t, (refl, ground arith))

module _ (env : BotEnv) (id now : ℕ) (u : Update) (w : BotWorld) where
  redeem_token-changes :
      (m : Message) (token : Option String)
      → u.message ≡ some m
      → Startgroup.token_of m ≡ token
      → (group_of id (Startgroup.redeem_token env now m.chat.id token w).0 ≡ group_of id w)
        ⊎ Redeemed now u w id (Startgroup.redeem_token env now m.chat.id token w).0
  unfolding Startgroup.redeem_token consume_token
  redeem_token-changes m none b r = inl refl
  redeem_token-changes m (some token) b r =
      let taken = record w { db = (consume_token now token w.db).0 } in
      let answer = redeem now (find_token token w.db.pending_supergroup_tokens) in
      elim (link-changes env id now m.chat.id taken answer) [
        | inl same ↦ inl same
        | inr (e, linked) ↦
            let found =
              redeem-consumed_by now id (find_token token w.db.pending_supergroup_tokens) e in
            inr (record {
              message = m;
              token = token;
              pending = found.0;
              brought = b;
              read = r;
              issued = found.1.0;
              to_user = found.1.1.0;
              in_time = found.1.1.1;
              linked = linked;
              used_up =
                  ap (find_token token) (link-pending env now m.chat.id taken answer)
                  ∙ find_token-keep token w.db.pending_supergroup_tokens;
            })
      ]

  take_message-changes :
      (o : Option Message)
      → u.message ≡ o
      → (group_of id (Startgroup.take_message env now o w).0 ≡ group_of id w)
        ⊎ Redeemed now u w id (Startgroup.take_message env now o w).0
  unfolding Startgroup.take_message
  take_message-changes none b = inl refl
  take_message-changes (some m) b = redeem_token-changes m (Startgroup.token_of m) b refl

  pub startgroup-changes :
      (group_of id (Startgroup.handle env now u w).0 ≡ group_of id w)
      ⊎ Redeemed now u w id (Startgroup.handle env now u w).0
  unfolding Startgroup.handle
  startgroup-changes = take_message-changes u.message refl

replied : (a : Answer) → outcome_of a ≢ passed
replied call_fails h = cc
replied returned h = cc
replied (thread id) h = cc

link-passed :
    (env : BotEnv) (now chat : ℕ) (w : BotWorld) (r : Consumed)
    → (Startgroup.link env now chat w r).1 ≢ passed
unfolding Startgroup.link reply
link-passed env now chat w token_not_found = replied (env.telegram w.made _)
link-passed env now chat w token_expired = replied (env.telegram w.made _)
link-passed env now chat w (consumed_by user) = replied (env.telegram w.made _)

redeem_token-passed :
    (env : BotEnv) (now chat : ℕ) (token : Option String) (w : BotWorld)
    → (Startgroup.redeem_token env now chat token w).1 ≡ passed
    → (Startgroup.redeem_token env now chat token w).0 ≡ w
unfolding Startgroup.redeem_token
redeem_token-passed env now chat none w h = refl
redeem_token-passed env now chat (some token) w h = elim (link-passed env now chat _ _ h) [ ]

-- An update that the first handler passes on is as good as unseen by it.
pub startgroup-passed :
    (env : BotEnv) (now : ℕ) (o : Option Message) (w : BotWorld)
    → (Startgroup.take_message env now o w).1 ≡ passed
    → (Startgroup.take_message env now o w).0 ≡ w
unfolding Startgroup.take_message
startgroup-passed env now none w h = refl
startgroup-passed env now (some m) w h =
    redeem_token-passed env now m.chat.id (Startgroup.token_of m) w h
