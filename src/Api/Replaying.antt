-- ===== src/Api/Replaying.antt =====
-- A request that is sent again gets the job that its first attempt made.
use email_extractor.Common.{
  ℕ, ◌≡◌, refl, sym, ap, Bool, true, inl, inr, Option-cases, Option, none, some, List, [], ◌∷◌,
  ◌++◌, arith, find_first, Text, eq_text_refl,
}
use mathlib.Core.List.{append_assoc}
use email_extractor.Queue.Claim.{same_owner}
use email_extractor.Api.{
  JobKey, Server, JobRequest, Response, failed_with, replayed, created, early_error, is_key_of,
  answer_again, replay, late_error, keep_key, add_job, finish_request, replay_of, post_job,
}

find_first-append {ℓ} :
    {A : Type ℓ} (p : A → Bool) (xs ys : List A)
    → find_first p xs ≡ none
    → find_first p (xs ++ ys) ≡ find_first p ys
find_first-append p [] ys h = refl
find_first-append p (x ∷ xs) ys h = ground (arith, find_first-append p xs ys)

same_owner_refl : (o : Option ℕ) → same_owner o o ≡ true
same_owner_refl none = refl
same_owner_refl (some a) = ground arith

-- Only a key that no job has goes unanswered.
answer_again-none :
    (fingerprint : Text) (o : Option JobKey) → answer_again fingerprint o ≡ none → o ≡ none
unfolding answer_again
answer_again-none fingerprint none e = refl
answer_again-none fingerprint (some j) e = ground arith

answer_again-same : (j : JobKey) → answer_again j.fingerprint (some j) ≡ some (replayed j.job_id)
unfolding answer_again
answer_again-same j = ground (arith, eq_text_refl j.fingerprint)

-- The keys behind a request that made a job give that job to the next one with the key.
replay-added :
    (r : JobRequest) (c : ℕ) (k : Text) (keys more : List JobKey)
    → find_first (is_key_of r.who (c ∷ k)) keys ≡ none
    → replay r.who (c ∷ k) r.fingerprint (keep_key r (some (c ∷ k)) keys ++ more)
      ≡ some (replayed r.new_id)
unfolding replay keep_key is_key_of
replay-added r c k keys more e =
    rw
      (
        append_assoc keys
            (record {
              owner_id = r.who.user_id;
              idempotency_key = c ∷ k;
              fingerprint = r.fingerprint;
              job_id = r.new_id;
            }
              ∷ [])
            more,
        find_first-append (is_key_of r.who (c ∷ k)) keys,
        e,
        eq_text_refl,
        same_owner_refl,
        answer_again,
        eq_text_refl,
      )
      (ground arith)

-- An earlier job's answer is never that a job was made.
answer_again-old :
    (fingerprint : Text) (o : Option JobKey) (i : ℕ)
    → answer_again fingerprint o ≡ some (created i)
    → ⊥
unfolding answer_again
answer_again-old fingerprint none i e = cc
answer_again-old fingerprint (some j) i e = ground arith

replay_of-old :
    (r : JobRequest) (s : Server) (k : Option Text) (i : ℕ) → replay_of r s k ≡ some (created i) → ⊥
unfolding replay_of replay
replay_of-old r s none i e = cc
replay_of-old r s (some []) i e = cc
replay_of-old r s (some (c ∷ k)) i e =
    answer_again-old r.fingerprint (find_first (is_key_of r.who (c ∷ k)) s.keys) i e

-- A request makes a job only behind all its guards.
finish_request-created :
    (r : JobRequest) (s s' : Server) (i : ℕ) (o : Option Response)
    → (o ≡ some (created i) → ⊥)
    → finish_request r s o ≡ (created i, s')
    → (o ≡ none) × (late_error r s.db ≡ none) × (add_job r s ≡ (created i, s'))
unfolding finish_request
finish_request-created r s s' i (some a) fresh e = absurd (fresh (cc))
finish_request-created r s s' i none fresh e = elim (Option-cases (late_error r s.db)) [
  | inl n ↦ (refl, n, rw (n, finish_request) at e)
  | inr (a, l) ↦ cc (rw (l, finish_request) at e)
]

pub post_job-created :
    (r : JobRequest) (s s' : Server) (i : ℕ)
    → post_job r s ≡ (created i, s')
    → (early_error r ≡ none)
      × (replay_of r s r.idempotency_key ≡ none)
      × (late_error r s.db ≡ none)
      × (add_job r s ≡ (created i, s'))
unfolding post_job
post_job-created r s s' i e = elim (Option-cases (early_error r)) [
  | inl n ↦
      let rest =
        finish_request-created r s s' i (replay_of r s r.idempotency_key)
          (replay_of-old r s r.idempotency_key i) (rw (n, post_job) at e) in
      (n, rest.0, rest.1, rest.2)
  | inr (a, l) ↦ cc (rw (l, post_job) at e)
]

-- The request, sent once more at another time, for another fresh id.
abbrev pub again : JobRequest → (now new_id : ℕ) → (webhook_ok : Bool) → JobRequest
again r now new_id webhook_ok = record {
  who = r.who;
  now = now;
  new_id = new_id;
  items = r.items;
  fresh = r.fresh;
  webhook_url = r.webhook_url;
  webhook_ok = webhook_ok;
  idempotency_key = r.idempotency_key;
  fingerprint = r.fingerprint;
}

keys-added :
    (r : JobRequest) (s s' : Server) (i : ℕ)
    → add_job r s ≡ (created i, s')
    → (i ≡ r.new_id) × (s'.keys ≡ keep_key r r.idempotency_key s.keys)
unfolding add_job
keys-added r s s' i e = (
  sym (ap made (ap (λ (p : Response × Server). p.0) e)),
  ap (λ (p : Response × Server). p.1.keys) (sym e),
)
  where
    made : Response → ℕ
    made (failed_with a) = 0
    made (replayed j) = 0
    made (created j) = j

post_job-answered :
    (q : JobRequest) (t : Server) (a : Response) (key : Text)
    → q.idempotency_key ≡ some key
    → early_error q ≡ none
    → replay_of q t (some key) ≡ some a
    → post_job q t ≡ (a, t)
unfolding post_job finish_request
post_job-answered q t a key named e f =
    rw (e, post_job) (rw (named, post_job) (rw (f, finish_request) refl))

-- The keys that a made job leaves, seen from the next attempt.
replay_of-added :
    (r : JobRequest) (c i : ℕ) (k : Text) (keys kept more : List JobKey)
    → find_first (is_key_of r.who (c ∷ k)) keys ≡ none
    → i ≡ r.new_id
    → kept ≡ keep_key r (some (c ∷ k)) keys
    → replay r.who (c ∷ k) r.fingerprint (kept ++ more) ≡ some (replayed i)
replay_of-added r c i k keys kept more e made held =
    rw (made, held) (replay-added r c k keys more e)

-- When a request with an idempotency key has made a job, the same request sent again is answered with
-- that job and changes nothing: at any later time, for any state of the queue, whatever keys other jobs
-- have added since, and even if the webhook's host is refused by then.
pub post_job-replays :
    (r : JobRequest) (s s' : Server) (i c : ℕ) (k : Text) (t : Server) (more : List JobKey)
    (now new_id : ℕ) (webhook_ok : Bool)
    → r.idempotency_key ≡ some (c ∷ k)
    → post_job r s ≡ (created i, s')
    → t.keys ≡ s'.keys ++ more
    → post_job (again r now new_id webhook_ok) t ≡ (replayed i, t)
unfolding post_job
post_job-replays r s s' i c k t more now new_id webhook_ok key e later =
    let steps = post_job-created r s s' i e in
    let kept = keys-added r s s' i steps.3 in
    let before : replay r.who (c ∷ k) r.fingerprint s.keys ≡ none =
      rw (key, replay_of) at steps.1 in
    let free =
      answer_again-none r.fingerprint (find_first (is_key_of r.who (c ∷ k)) s.keys) before in
    let seen : replay r.who (c ∷ k) r.fingerprint t.keys ≡ some (replayed i) =
      rw later (replay_of-added r c i k s.keys s'.keys more free kept.0 (rw key at kept.1)) in
    post_job-answered (again r now new_id webhook_ok) t (replayed i) (c ∷ k) key steps.0 seen
