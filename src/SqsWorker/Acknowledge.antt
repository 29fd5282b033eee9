-- ===== src/SqsWorker/Acknowledge.antt =====
-- Acknowledging in lib/core/sqs-worker.ts: the loop of `processSqsMessages` and `deleteMessageBatch`.
use mailgun_ses_proxy.Base.{
  ℕ, zero, suc, ◌+◌, ◌-◌, ◌≤◌, ◌<◌, ◌≡◌, refl, sym, ap, ◌∙◌, String, Bool, true, false, Option,
  none, some, List, [], ◌∷◌, ◌++◌, ltb, length, take, drop, All, All-append, length-append, str_eq,
  if◌then◌else◌, arith, Bool-cases, inl, inr,
}
use native.Mathlib.Nat.{zero-add}
use mathlib.Core.List.{append-nil, append_assoc}
use mailgun_ses_proxy.SqsWorker.Limits.{sqs_batch_limit}

-- What the worker reads of an SQS message.
pub record Message : Type 0 where
  pub message_id : String
  pub receipt_handle : Option String
  pub sent_timestamp : Option String

abbrev pub has_receipt_handle : Message → Bool
has_receipt_handle message = elim message.receipt_handle [
  | none ↦ false
  | some h ↦ (if str_eq h "" then false else true)
]

-- `successful.filter(message => Boolean(message.ReceiptHandle))`
abbrev pub ackable : List Message → List Message
ackable [] = []
ackable (m ∷ ms) = if has_receipt_handle m then m ∷ ackable ms else ackable ms

-- The answer to one DeleteMessageBatch request: `none` if it fails, else for each entry whether its
-- id `entry-<index>` is among the successful ones.
abbrev pub DeleteReply : Type 0
DeleteReply = Option (ℕ → Bool)

abbrev pub count_confirmed : (ℕ → Bool) → ℕ → List Message → ℕ
count_confirmed confirmed index [] = 0
count_confirmed confirmed index (m ∷ ms) =
    (if confirmed index then 1 else 0) + count_confirmed confirmed (suc index) ms

abbrev confirmed_in : DeleteReply → List Message → ℕ
confirmed_in none messages = 0
confirmed_in (some confirmed) messages = count_confirmed confirmed 0 messages

-- With the requests that it sends: none for an empty batch.
unfoldable pub delete_message_batch : DeleteReply → List Message → ℕ × List (List Message)
delete_message_batch reply [] = (0, [])
delete_message_batch reply (m ∷ ms) = (confirmed_in reply (m ∷ ms), (m ∷ ms) ∷ [])

-- `for (offset = 0; offset < ackable.length; offset += 10)` on fuel; `sqs` answers the request at each
-- offset.
unfoldable pub acknowledge_from : ℕ → ℕ → (ℕ → DeleteReply) → List Message → ℕ × List (List Message)
unfolding delete_message_batch
acknowledge_from zero offset sqs messages = (0, [])
acknowledge_from (suc fuel) offset sqs messages =
    let (n, sent) =
      delete_message_batch (sqs offset) (take sqs_batch_limit (drop offset messages)) in
    let rest = acknowledge_from fuel (offset + sqs_batch_limit) sqs messages in
    if ltb offset (length messages) then (n + rest.0, sent ++ rest.1) else (0, [])

-- What `processSqsMessages` does once its handlers have ended; the fuel is one more than the messages.
unfoldable pub acknowledge : (ℕ → DeleteReply) → List Message → ℕ × List (List Message)
unfolding acknowledge_from
acknowledge sqs successful =
    acknowledge_from (suc (length (ackable successful))) 0 sqs (ackable successful)

module _ {A : Type 0} where
  take-append-drop : (n : ℕ) (xs : List A) → take n xs ++ drop n xs ≡ xs
  take-append-drop zero xs = refl
  take-append-drop (suc n) [] = refl
  take-append-drop (suc n) (x ∷ xs) = ap (λ t. x ∷ t) (take-append-drop n xs)

  drop-nil : (n : ℕ) → ◌≡◌ {A = List A} (drop n []) []
  drop-nil zero = refl
  drop-nil (suc n) = refl

  drop-drop : (n m : ℕ) (xs : List A) → drop n (drop m xs) ≡ drop (m + n) xs
  drop-drop n zero xs = rw zero-add refl
  drop-drop n (suc m) [] = let e : suc m + n ≡ suc (m + n) = omega arith in rw e (drop-nil n)
  drop-drop n (suc m) (x ∷ xs) =
      let e : suc m + n ≡ suc (m + n) = omega arith in rw e (drop-drop n m xs)

  length-drop : (n : ℕ) (xs : List A) → length (drop n xs) ≡ length xs - n
  length-drop zero xs = omega arith
  length-drop (suc n) [] = omega arith
  length-drop (suc n) (x ∷ xs) = omega (arith, length-drop n xs)

  length-take-le :
      (n : ℕ) (xs : List A) → (length (take n xs) ≤ n) × (length (take n xs) ≤ length xs)
  length-take-le zero xs = omega arith
  length-take-le (suc n) [] = omega arith
  length-take-le (suc n) (x ∷ xs) = omega (arith, length-take-le n xs)

confirmed-le :
    (confirmed : ℕ → Bool) (index : ℕ) (ms : List Message)
    → count_confirmed confirmed index ms ≤ length ms
confirmed-le confirmed index [] = omega arith
confirmed-le confirmed index (m ∷ ms) = ground (arith, confirmed-le confirmed (suc index) ms)

-- One request.
abbrev pub FitsRequest : List Message → Type 0
FitsRequest batch = (1 ≤ length batch) × (length batch ≤ 10)

abbrev pub concat_all : List (List Message) → List Message
concat_all [] = []
concat_all (b ∷ bs) = b ++ concat_all bs

delete_message_batch_lem :
    (reply : DeleteReply) (ms : List Message)
    → length ms ≤ 10
    → ((delete_message_batch reply ms).0 ≤ length ms)
      × (concat_all (delete_message_batch reply ms).1 ≡ ms)
      × All FitsRequest (delete_message_batch reply ms).1
unfolding delete_message_batch
delete_message_batch_lem reply [] h = (omega arith, refl, tt)
delete_message_batch_lem none (m ∷ ms) h =
    (omega arith, append-nil (m ∷ ms), ((omega arith, h), tt))
delete_message_batch_lem (some confirmed) (m ∷ ms) h =
    (confirmed-le confirmed 0 (m ∷ ms), append-nil (m ∷ ms), ((omega arith, h), tt))

concat-append :
    (bs cs : List (List Message)) → concat_all (bs ++ cs) ≡ concat_all bs ++ concat_all cs
concat-append [] cs = refl
concat-append (b ∷ bs) cs =
    rw (concat-append bs cs) (sym (append_assoc b (concat_all bs) (concat_all cs)))

abbrev Acknowledged : List Message → ℕ × List (List Message) → Type 0
Acknowledged ms (n, sent) = (n ≤ length ms) × (concat_all sent ≡ ms) × All FitsRequest sent

empty_of_length : (ms : List Message) → length ms ≤ 0 → ms ≡ []
empty_of_length [] h = refl
empty_of_length (m ∷ ms) h = absurd (omega arith)

join-Acknowledged :
    {first rest ms : List Message} (x y : ℕ × List (List Message))
    → first ++ rest ≡ ms
    → Acknowledged first x
    → Acknowledged rest y
    → Acknowledged ms (x.0 + y.0, x.1 ++ y.1)
join-Acknowledged {first} {rest} {ms} x y e hx hy = (
  omega (arith, length-append first rest, ap length e, hx.0, hy.0),
  concat-append x.1 y.1 ∙ ap (λ z. z ++ concat_all y.1) hx.1 ∙ ap (λ z. first ++ z) hy.1 ∙ e,
  All-append FitsRequest x.1 y.1 hx.2 hy.2,
)

acknowledge_from-Acknowledged :
    (fuel offset : ℕ) (sqs : ℕ → DeleteReply) (ms : List Message)
    → length (drop offset ms) < fuel
    → Acknowledged (drop offset ms) (acknowledge_from fuel offset sqs ms)
unfolding acknowledge_from
acknowledge_from-Acknowledged zero offset sqs ms h = absurd (omega arith)
acknowledge_from-Acknowledged (suc fuel) offset sqs ms h =
    elim (Bool-cases (ltb offset (length ms))) [
      | inr over ↦ rw over (
        omega arith,
        sym (empty_of_length (drop offset ms) (ground (arith, length-drop offset ms, over))),
        tt,
      )
      | inl more ↦
          let batch = take sqs_batch_limit (drop offset ms) in
          let split : batch ++ drop (offset + 10) ms ≡ drop offset ms =
            ap (λ z. batch ++ z) (sym (drop-drop 10 offset ms))
            ∙ take-append-drop 10 (drop offset ms) in
          let shorter : length (drop (offset + 10) ms) < fuel =
            ground (arith, length-drop (offset + 10) ms, length-drop offset ms, more, h) in
          rw more (
            join-Acknowledged (delete_message_batch (sqs offset) batch)
              (acknowledge_from fuel (offset + sqs_batch_limit) sqs ms) split
              (delete_message_batch_lem (sqs offset) batch ((length-take-le 10 (drop offset ms)).0))
              (acknowledge_from-Acknowledged fuel (offset + 10) sqs ms shorter))
    ]

-- However many messages a poll's handlers finished and however SQS answers, the messages with a
-- receipt handle, and only these, are sent for deletion, each once and in their order, in requests of
-- 1 to 10 entries; the count returned is at most their number.
pub acknowledge_requests :
    (sqs : ℕ → DeleteReply) (successful : List Message)
    → ((acknowledge sqs successful).0 ≤ length (ackable successful))
      × (concat_all (acknowledge sqs successful).1 ≡ ackable successful)
      × All FitsRequest (acknowledge sqs successful).1
unfolding acknowledge
acknowledge_requests sqs successful =
    acknowledge_from-Acknowledged (suc (length (ackable successful))) 0 sqs (ackable successful)
      (omega arith)
