-- ===== src/Newsletter/Sending.antt =====
-- One recipient of service/newsletter-service.ts: the account of accepted mails, recorded rows and
-- CRITICAL log lines, which every await of `sendSingleEmail` keeps.
use mailgun_ses_proxy.Base.{
  ℕ, ◌+◌, ◌≤◌, ◌≡◌, refl, String, Bool, true, false, ◌&&◌, List, [], ◌∷◌, ltb, some_of, str_eq,
  eq_refl, arith,
}
use mailgun_ses_proxy.Database.{
  is_row_of, create_newsletter_entry, create_newsletter_error_entry, check_newsletter_already_sent,
}
use mailgun_ses_proxy.Newsletter.Tasks.{count_if}
use mailgun_ses_proxy.Newsletter.{
  Weather, Mail, World, Campaign, Phase, checking, sending, recording, noting_error, fulfilled,
  rejected, SesReply, accepted, refused, ses_result, advance,
}

-- A mail to an address that the server takes for this one.
abbrev pub is_mail : Campaign → String → Mail → Bool
is_mail c to_email mail =
    str_eq (c.collation_key mail.batch_id) (c.collation_key c.newsletter_batch_id)
    && str_eq (c.collation_key mail.to_email) (c.collation_key to_email)

some_of-count_if {ℓ} :
    {A : Type ℓ} (p : A → Bool) (xs : List A) → some_of p xs ≡ ltb 0 (count_if p xs)
some_of-count_if p [] = refl
some_of-count_if p (x ∷ xs) = ground (arith, some_of-count_if p xs)

module _ (c : Campaign) (a : String) where
  abbrev pub rows : World → ℕ
  rows w = count_if (is_row_of c.collation_key c.newsletter_batch_id a) w.db.messages

  abbrev pub accepted_mails : World → ℕ
  accepted_mails w = count_if (is_mail c a) w.sent

  abbrev pub critical_lines : World → ℕ
  critical_lines w = count_if (is_mail c a) w.critical

abbrev pub in_flight : Phase → ℕ
in_flight (recording message_id) = 1
in_flight _ = 0

-- From here the code takes the recipient as not yet recorded.
abbrev pub is_unrecorded : Phase → Bool
is_unrecorded sending = true
is_unrecorded (recording message_id) = true
is_unrecorded (noting_error error) = true
is_unrecorded _ = false

abbrev pub is_fulfilled : Phase → Bool
is_fulfilled fulfilled = true
is_fulfilled _ = false

pub record Account (c : Campaign) (a : String) (p : Phase) (w : World) : Type 0 where
  pub balance : accepted_mails c a w ≡ rows c a w + critical_lines c a w + in_flight p
  pub at_most_one : rows c a w ≤ 1
  pub unrecorded : is_unrecorded p ≡ true → rows c a w ≡ 0
  pub recorded : is_fulfilled p ≡ true → rows c a w ≡ 1

module _ (c : Campaign) (a : String) (named : str_eq a "" ≡ false) (weather : Weather)
    (w : World) where
  check-Account :
      Account c a checking w
      → Account c a (advance c a weather checking w).0 (advance c a weather checking w).1
  unfolding advance check_newsletter_already_sent
  check-Account v = ground (
    arith,
    v.balance,
    v.at_most_one,
    some_of-count_if (is_row_of c.collation_key c.newsletter_batch_id a) w.db.messages,
  )

  send-Account :
      Account c a sending w
      → Account c a (advance c a weather sending w).0 (advance c a weather sending w).1
  unfolding advance
  send-Account v = by_reply weather.ses
    where
      by_reply :
          (reply : SesReply) → Account c a (ses_result c a w reply).0 (ses_result c a w reply).1
      by_reply (accepted id) = ground (
        arith,
        v.balance,
        v.at_most_one,
        v.unrecorded,
        eq_refl (c.collation_key a),
        eq_refl (c.collation_key c.newsletter_batch_id),
      )
      by_reply (refused error) = ground (arith, v.balance, v.at_most_one, v.unrecorded)

  record-Account :
      (id : String)
      → Account c a (recording id) w
      → Account c a
          (advance c a weather (recording id) w).0
          (advance c a weather (recording id) w).1
  unfolding advance create_newsletter_entry
  record-Account id v = ground (
    arith,
    v.balance,
    v.at_most_one,
    v.unrecorded,
    eq_refl (c.collation_key a),
    eq_refl (c.collation_key c.newsletter_batch_id),
  )

  note-Account :
      (error : String)
      → Account c a (noting_error error) w
      → Account c a
          (advance c a weather (noting_error error) w).0
          (advance c a weather (noting_error error) w).1
  unfolding advance create_newsletter_error_entry
  note-Account error v = ground (arith, v.balance, v.at_most_one, v.unrecorded)

  pub advance-Account :
      (p : Phase)
      → Account c a p w
      → Account c a (advance c a weather p w).0 (advance c a weather p w).1
  unfolding advance
  advance-Account checking v = check-Account v
  advance-Account sending v = send-Account v
  advance-Account (recording id) v = record-Account id v
  advance-Account (noting_error error) v = note-Account error v
  advance-Account fulfilled v = v
  advance-Account (rejected error) v = v

-- The task of one recipient leaves the account of another alone.
pub record Untouched (c : Campaign) (a : String) (w w' : World) : Type 0 where
  pub same_rows : rows c a w' ≡ rows c a w
  pub same_accepted : accepted_mails c a w' ≡ accepted_mails c a w
  pub same_critical : critical_lines c a w' ≡ critical_lines c a w

module _ (c : Campaign) (a b : String)
    (other : str_eq (c.collation_key b) (c.collation_key a) ≡ false) (weather : Weather)
    (w : World) where
  record-Untouched : (id : String) → Untouched c a w (advance c b weather (recording id) w).1
  unfolding advance create_newsletter_entry
  record-Untouched id = ground arith

  note-Untouched : (error : String) → Untouched c a w (advance c b weather (noting_error error) w).1
  unfolding advance create_newsletter_error_entry
  note-Untouched error = ground arith

  send-Untouched : (reply : SesReply) → Untouched c a w (ses_result c b w reply).1
  send-Untouched (accepted id) = ground arith
  send-Untouched (refused error) = ground arith

  pub advance-Untouched : (p : Phase) → Untouched c a w (advance c b weather p w).1
  unfolding advance
  advance-Untouched checking = ground arith
  advance-Untouched sending = send-Untouched weather.ses
  advance-Untouched (recording id) = record-Untouched id
  advance-Untouched (noting_error error) = note-Untouched error
  advance-Untouched fulfilled = ground arith
  advance-Untouched (rejected error) = ground arith
