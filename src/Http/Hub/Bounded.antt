-- ===== src/Http/Hub/Bounded.antt =====
-- The clients of internal/httpapi/server.go: no channel is closed twice or sent on after it was closed,
-- and none holds more than its buffer.
use gnasty_chat.Prelude.{
  ℕ, ◌+◌, ◌≤◌, true, List, [], ◌∷◌, ◌++◌, ◌≡◌, refl, arith, ◌==◌, if◌then◌else◌, length,
  length-append, map, All, Bool-cases, inl, inr,
}
use gnasty_chat.Message.{ChatMessage}
use gnasty_chat.Http.Filters.{Filters}
use gnasty_chat.Http.Hub.Stopped.{has_stop, IsStopped, act_all-IsStopped}
use gnasty_chat.Http.Hub.{
  Client, Hub, new_hub, new_client, add_client, has_client, delete_client, remove_client, offer,
  broadcast, numbers, shutdown, receive_first, Action, joins, leaves, sends, receives, stops, act,
  act_all, buffer_size,
}

tally : ℕ → ℕ → ℕ
tally n k = if k == n then 1 else 0

-- How many clients have the number, how often its channel was closed, and how often it has joined.
pub present : ℕ → List Client → ℕ
present n [] = 0
present n (c ∷ cs) = (if c.number == n then 1 else 0) + present n cs

pub closings_of : ℕ → List ℕ → ℕ
closings_of n [] = 0
closings_of n (k ∷ ks) = (if k == n then 1 else 0) + closings_of n ks

pub joins_of : ℕ → List Action → ℕ
joins_of n [] = 0
joins_of n (joins k f ∷ as') = (if k == n then 1 else 0) + joins_of n as'
joins_of n (leaves k ∷ as') = joins_of n as'
joins_of n (sends m ∷ as') = joins_of n as'
joins_of n (receives k ∷ as') = joins_of n as'
joins_of n (stops ∷ as') = joins_of n as'

abbrev pub Fits : List Client → Type 0
Fits = All λ c. length c.waiting ≤ buffer_size

-- The clients in the map and the closings of a number are no more than its joins, the given ones
-- included; each buffer fits; and a server that has shut down has no clients.
pub record IsSafe (before : ℕ → ℕ) (h : Hub) : Type 0 where
  pub once : (n : ℕ) → present n h.clients + closings_of n h.closings ≤ before n
  pub fits : Fits h.clients
  pub empty : h.closed ≡ true → h.clients ≡ []

present-delete_client :
    (n k : ℕ) (cs : List Client)
    → present k (delete_client n cs) ≡ (if n == k then 0 else present k cs)
unfolding present delete_client
present-delete_client n k [] = ground arith
present-delete_client n k (c ∷ cs) = ground (arith, present-delete_client n k cs)

has_client-present : (n : ℕ) (cs : List Client) → has_client n cs ≡ true → 1 ≤ present n cs
unfolding has_client present
has_client-present n [] h = cc
has_client-present n (c ∷ cs) h = ground (arith, has_client-present n cs)

Fits-delete_client : (n : ℕ) (cs : List Client) → Fits cs → Fits (delete_client n cs)
unfolding delete_client
Fits-delete_client n [] f = tt
Fits-delete_client n (c ∷ cs) (fc, f) = elim (Bool-cases (c.number == n)) [
  | inl e ↦ rw e (Fits-delete_client n cs f)
  | inr e ↦ rw e (fc, Fits-delete_client n cs f)
]

number-offer : (m : ChatMessage) (c : Client) → (offer m c).number ≡ c.number
unfolding offer
number-offer m c = ground arith

offer-fits :
    (m : ChatMessage) (c : Client)
    → length c.waiting ≤ buffer_size
    → length (offer m c).waiting ≤ buffer_size
unfolding offer
offer-fits m c h = ground (arith, length-append c.waiting (m ∷ []))

present-map-offer :
    (n : ℕ) (m : ChatMessage) (cs : List Client) → present n (map (offer m) cs) ≡ present n cs
unfolding present
present-map-offer n m [] = refl
present-map-offer n m (c ∷ cs) = ground (arith, number-offer m c, present-map-offer n m cs)

Fits-map-offer : (m : ChatMessage) (cs : List Client) → Fits cs → Fits (map (offer m) cs)
Fits-map-offer m [] f = tt
Fits-map-offer m (c ∷ cs) (fc, f) = (offer-fits m c fc, Fits-map-offer m cs f)

closings_of-numbers :
    (n : ℕ) (cs : List Client) (ks : List ℕ)
    → closings_of n (numbers cs ++ ks) ≡ present n cs + closings_of n ks
unfolding closings_of numbers present
closings_of-numbers n [] ks = omega arith
closings_of-numbers n (c ∷ cs) ks = omega (arith, closings_of-numbers n cs ks)

present-receive_first : (n k : ℕ) (cs : List Client) → present k (receive_first n cs) ≡ present k cs
unfolding present receive_first
present-receive_first n k [] = refl
present-receive_first n k (c ∷ cs) = ground (arith, present-receive_first n k cs)

Fits-receive_first : (n : ℕ) (cs : List Client) → Fits cs → Fits (receive_first n cs)
unfolding receive_first
Fits-receive_first n [] f = tt
Fits-receive_first n (c ∷ cs) (fc, f) = elim (Bool-cases (c.number == n)) [
  | inl e ↦ rw e (tail-fits c.waiting fc, Fits-receive_first n cs f)
  | inr e ↦ rw e (fc, Fits-receive_first n cs f)
]
  where
    tail-fits :
        (ms : List ChatMessage)
        → length ms ≤ buffer_size
        → length (elim ms [ [] ↦ [] | m ∷ ms' ↦ ms' ]) ≤ buffer_size
    tail-fits [] h = h
    tail-fits (m ∷ ms) h = omega arith

map-offer-empty : (m : ChatMessage) (cs : List Client) → cs ≡ [] → map (offer m) cs ≡ []
map-offer-empty m [] h = refl
map-offer-empty m (c ∷ cs) h = cc

delete_client-empty : (n : ℕ) (cs : List Client) → cs ≡ [] → delete_client n cs ≡ []
unfolding delete_client
delete_client-empty n [] h = refl
delete_client-empty n (c ∷ cs) h = cc

receive_first-empty : (n : ℕ) (cs : List Client) → cs ≡ [] → receive_first n cs ≡ []
unfolding receive_first
receive_first-empty n [] h = refl
receive_first-empty n (c ∷ cs) h = cc

-- The joins that the action adds.
abbrev after : Action → (ℕ → ℕ) → ℕ → ℕ
after a before n = before n + joins_of n (a ∷ [])

add_client-IsSafe :
    (before : ℕ → ℕ) (k : ℕ) (f : Filters) (h : Hub)
    → IsSafe before h
    → IsSafe (after (joins k f) before) (add_client (new_client k f) h).1
unfolding add_client joins_of new_client present
add_client-IsSafe before k f h v = elim (Bool-cases h.closed) [
  | inl e ↦ simp e (record { once = λ n. ground (arith, v.once n); fits = v.fits; empty = v.empty })
  | inr e ↦ simp e (record {
    once = λ n. ground (arith, v.once n);
    fits = (omega arith, v.fits);
    empty = λ c. cc;
  })
]

remove_client-IsSafe :
    (before : ℕ → ℕ) (k : ℕ) (h : Hub) → IsSafe before h → IsSafe before (remove_client k h)
unfolding remove_client closings_of
remove_client-IsSafe before k h v = elim (Bool-cases (has_client k h.clients)) [
  | inl e ↦ rw e (record {
    once = λ n.
        ground
          (arith, v.once n, present-delete_client k n h.clients, has_client-present k h.clients e);
    fits = Fits-delete_client k h.clients v.fits;
    empty = λ c. delete_client-empty k h.clients (v.empty c);
  })
  | inr e ↦ rw e v
]

shutdown-IsSafe : (before : ℕ → ℕ) (h : Hub) → IsSafe before h → IsSafe before (shutdown h)
unfolding shutdown present
shutdown-IsSafe before h v = elim (Bool-cases h.closed) [
  | inl e ↦ simp e v
  | inr e ↦ simp e (record {
    once = λ n. omega (arith, v.once n, closings_of-numbers n h.clients h.closings);
    fits = tt;
    empty = λ c. refl;
  })
]

broadcast-IsSafe :
    (before : ℕ → ℕ) (m : ChatMessage) (h : Hub) → IsSafe before h → IsSafe before (broadcast m h)
unfolding broadcast
broadcast-IsSafe before m h v = record {
  once = λ n. omega (arith, v.once n, present-map-offer n m h.clients);
  fits = Fits-map-offer m h.clients v.fits;
  empty = λ c. map-offer-empty m h.clients (v.empty c);
}

IsSafe-weaken : (p q : ℕ → ℕ) (h : Hub) → ((n : ℕ) → p n ≤ q n) → IsSafe p h → IsSafe q h
IsSafe-weaken p q h le v = record {
  once = λ n. omega (arith, v.once n, le n);
  fits = v.fits;
  empty = v.empty;
}

act-IsSafe :
    (before : ℕ → ℕ) (a : Action) (h : Hub) → IsSafe before h → IsSafe (after a before) (act a h)
unfolding act
act-IsSafe before (joins k f) h v = add_client-IsSafe before k f h v
act-IsSafe before (leaves k) h v =
    IsSafe-weaken before _ _ (λ n. omega arith) (remove_client-IsSafe before k h v)
act-IsSafe before (sends m) h v =
    IsSafe-weaken before _ _ (λ n. omega arith) (broadcast-IsSafe before m h v)
act-IsSafe before (receives k) h v = record {
  once = λ n. omega (arith, v.once n, present-receive_first k n h.clients);
  fits = Fits-receive_first k h.clients v.fits;
  empty = λ c. receive_first-empty k h.clients (v.empty c);
}
act-IsSafe before stops h v =
    IsSafe-weaken before _ _ (λ n. omega arith) (shutdown-IsSafe before h v)

joins_of-cons :
    (n : ℕ) (a : Action) (as' : List Action)
    → joins_of n (a ∷ as') ≡ joins_of n (a ∷ []) + joins_of n as'
unfolding joins_of
joins_of-cons n (joins k f) as' = omega arith
joins_of-cons n (leaves k) as' = omega arith
joins_of-cons n (sends m) as' = omega arith
joins_of-cons n (receives k) as' = omega arith
joins_of-cons n stops as' = omega arith

act_all-IsSafe_from :
    (before : ℕ → ℕ) (as' : List Action) (h : Hub)
    → IsSafe before h
    → IsSafe (λ n. before n + joins_of n as') (act_all as' h)
unfolding act_all
act_all-IsSafe_from before [] h v = IsSafe-weaken before _ h (λ n. unfold joins_of in omega arith) v
act_all-IsSafe_from before (a ∷ as') h v =
    IsSafe-weaken _ _ (act_all as' (act a h)) (λ n. omega (arith, joins_of-cons n a as'))
      (act_all-IsSafe_from (after a before) as' (act a h) (act-IsSafe before a h v))

new_hub-IsSafe : IsSafe (λ n. 0) new_hub
unfolding new_hub present closings_of
new_hub-IsSafe = record { once = λ n. omega arith; fits = tt; empty = λ e. refl }

-- Whatever the clients, the sources and the shutdown do, in any order: a number that joins once
-- has its channel closed at most once, and never while it is in the map; no buffer holds more
-- than 256 messages; the server is closed exactly if there was a shutdown, and then no client is
-- left, whoever joins afterwards.
pub act_all-IsSafe :
    (actions : List Action)
    → IsSafe (λ n. joins_of n actions) (act_all actions new_hub)
      × IsStopped (has_stop actions) (act_all actions new_hub)
act_all-IsSafe actions =
    let safe =
      IsSafe-weaken _ _ (act_all actions new_hub) (λ n. omega arith)
        (act_all-IsSafe_from (λ n. 0) actions new_hub new_hub-IsSafe) in
    (safe, act_all-IsStopped actions safe.empty)
