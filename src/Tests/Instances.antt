-- ===== src/Tests/Instances.antt =====
-- A connection in memory, a Redis server in memory, and UUIDs that are their own text.
use envisilab.Base.{
  zero, suc, ℕ, ◌≤◌, ◌≡◌, ◌≢◌, refl, sym, ap, Bool, true, false, Option, none, some, List, [], ◌∷◌,
  ◌++◌, ◌==◌, nat_eq, list_eq, if◌then◌else◌, arith, Bytes, Text, Error, length, take, drop,
  take-append, drop-append, eq_self, inl, inr, Bool-cases, eq_iff,
}
use envisilab.Base.Dict.{IsOrder}
use envisilab.Net.{NetConn, IsPipe}
use envisilab.Redis.{
  key_set, PubSub, IsPubSub, Pool, IsPool, Command, ping, setex, get, publish, Reply, nil, bulk,
  other,
}
use envisilab.Uuid.{Uuid, IsUuid}

pub length-take_le : (n : ℕ) (xs : Bytes) → length (take n xs) ≤ n
length-take_le zero xs = omega arith
length-take_le (suc n) [] = omega arith
length-take_le (suc n) (x ∷ xs) = omega (arith, length-take_le n xs)

abbrev pub buffer : NetConn
buffer = record {
  State = Bytes;
  read = λ s n. (take n s, none, drop n s);
  write = λ s bs. (length bs, none, s ++ bs);
  read_bound = λ s n. length-take_le n s;
}

abbrev pub buffer-IsPipe : IsPipe buffer
buffer-IsPipe = record {
  pending = λ s. s;
  read_all = λ s n xs rest l e.
      (drop n s, rw (e, take-append n xs rest l), rw e (drop-append n xs rest l));
  write_all = λ s bs. (s ++ bs, refl, refl);
}

-- A server that accepts everything.
abbrev pub server : PubSub
server = record {
  State = Text → Bool;
  dial = λ url. (none, λ d. false);
  subscribe = λ s c. (none, λ d. if c == d then true else s d);
  unsubscribe = λ s c. (none, λ d. if c == d then false else s d);
}

abbrev pub server-IsPubSub : IsPubSub server
server-IsPubSub = record {
  subscribed = λ s d. s d;
  subscribe_ok = λ s s' c d e. sym (ap (λ (r : Error × (Text → Bool)). r.1 d) e);
  unsubscribe_ok = λ s s' c d e. sym (ap (λ (r : Error × (Text → Bool)). r.1 d) e);
}

abbrev pub nothing : Text → Bool
nothing d = false

-- A server that refuses subscriptions to one channel, and accepts no unsubscription from another.
abbrev pub refused : Text
refused = 120 ∷ []

abbrev pub kept : Text
kept = 107 ∷ []

abbrev pub strict : PubSub
strict = record {
  State = Text → Bool;
  dial = λ url. (none, λ d. false);
  subscribe =
      λ s c. if c == refused then (some refused, s) else (none, λ d. if c == d then true else s d);
  unsubscribe =
      λ s c. if c == kept then (some kept, s) else (none, λ d. if c == d then false else s d);
}

-- The keys in the order in which the map gives them.
abbrev pub in_order {ℓ} : {K : Type ℓ} → List K → List K
in_order ks = ks

abbrev pub texts_in_order : IsOrder {K = Text} in_order
texts_in_order = record { same = λ k ks. refl }

abbrev pub numbers_in_order : IsOrder {K = ℕ} in_order
numbers_in_order = record { same = λ k ks. refl }

pub record Redis : Type 0 where
  pub stored : Text → Option Text
  pub published : List (Text × Bytes)

abbrev pub exec : Redis → Command → Reply × Error × Redis
exec s ping = (other, none, s)
exec s (setex key seconds value) =
    (other, none, record s { stored = λ k. if key == k then some value else s.stored k })
exec s (get key) = (elim (s.stored key) [ none ↦ nil | some value ↦ bulk value ], none, s)
exec s (publish channel message) =
    (other, none, record s { published = s.published ++ (channel, message) ∷ [] })

abbrev pub redis : Pool
redis = record { State = Redis; exec = exec }

pub exec_ok :
    (s : Redis) (c : Command) (r : Reply) (s' : Redis) (e : Text) → exec s c ≢ (r, some e, s')
exec_ok s ping r s' e h = cc
exec_ok s (setex key seconds value) r s' e h = cc
exec_ok s (get key) r s' e h = cc
exec_ok s (publish channel message) r s' e h = cc

abbrev pub state : {a b : Reply × Error × Redis} → a ≡ b → a.2 ≡ b.2
state h = ap (λ (x : Reply × Error × Redis). x.2) h

pub exec_keeps :
    (s : Redis) (c : Command) (key : Text)
    → key_set c ≢ some key
    → (exec s c).2.stored key ≡ s.stored key
exec_keeps s ping key ne = refl
exec_keeps s (setex key' seconds value) key ne = elim (Bool-cases (key' == key)) [
  | inl this ↦ absurd (ne (ap some ((eq_iff key' key).0 this)))
  | inr differ ↦ rw differ refl
]
exec_keeps s (get key') key ne = refl
exec_keeps s (publish channel message) key ne = refl

abbrev pub redis-IsPool : IsPool redis
redis-IsPool = record {
  stored = λ s. s.stored;
  published = λ s. s.published;
  setex_ok = λ s s' r key value seconds e. rw (sym (state e)) (rw (eq_self key));
  kept = λ s s' c r e key h ne. inl (rw (sym (state h)) (exec_keeps s c key ne));
  get_ok = λ s s' r key e. sym (ap (λ (a : Reply × Error × Redis). a.0) e);
  publish_ok = λ s s' r channel message e. rw (sym (state e));
  failed = λ s s' c r e h. absurd (exec_ok s c r s' e h);
}

abbrev pub no_redis : Redis
no_redis = record { stored = λ k. none; published = [] }

abbrev pub plain : Uuid
plain = record { string = λ id. id; parse = λ t. (t, none) }

abbrev pub plain-IsUuid : IsUuid plain
plain-IsUuid = record { parse-string = λ id l. refl }
