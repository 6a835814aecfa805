-- ===== src/MainLoop/Closing.antt =====
-- The connections that the callbacks of MainLoop.antt close.
use didactic_pancake_server.Prelude.{Bool, false, ◌||◌, ◌++◌, ◌⊎◌, same}
use didactic_pancake_server.Request.Server.{Kernel, add_fd, remove_fd, rearm_read, rearm_write}
use mathlib.Core.Path.{subst}
use didactic_pancake_server.Prelude.{
  if_rule, ℕ, Option, none, some, List, [], ◌∷◌, ◌==◌, ◌≡◌, refl, arith, ap, sym, ◌∙◌,
  if◌then◌else◌, Bool-cases, Option-cases, inl, inr,
}
use didactic_pancake_server.Request.Server.{Server, query}
use didactic_pancake_server.Request.Account.{close_conn, close_slot, logout}
use didactic_pancake_server.TimeWheel.{Timer}
use didactic_pancake_server.TimeWheel.Picks.{pick}
use didactic_pancake_server.MainLoop.{cb_func, fire_all}

-- Whether the descriptor has ever been registered with epoll.
abbrev pub is_fd : ℕ → Option ℕ → Bool
is_fd fd none = false
is_fd fd (some k) = fd == k

abbrev pub was_added : ℕ → List Kernel → Bool
was_added fd [] = false
was_added fd (add_fd o ∷ ks) = is_fd fd o || was_added fd ks
was_added fd (remove_fd o ∷ ks) = was_added fd ks
was_added fd (rearm_read o ∷ ks) = was_added fd ks
was_added fd (rearm_write o ∷ ks) = was_added fd ks

-- The element of m_users has no descriptor, or had none from accept; what m_sockfd is before init
-- does not matter.
abbrev pub IsClosed : ℕ → Server → Type 0
IsClosed fd s = ((s.conns fd).sockfd ≡ none) ⊎ (was_added fd s.kernel ≡ false)

pub was_added-append :
    (fd : ℕ) (ks ls : List Kernel) → was_added fd (ks ++ ls) ≡ was_added fd ks || was_added fd ls
was_added-append fd [] ls = refl
was_added-append fd (add_fd o ∷ ks) ls = ground (arith, was_added-append fd ks ls)
was_added-append fd (remove_fd o ∷ ks) ls = was_added-append fd ks ls
was_added-append fd (rearm_read o ∷ ks) ls = was_added-append fd ks ls
was_added-append fd (rearm_write o ∷ ks) ls = was_added-append fd ks ls

-- What is asked of the kernel last and adds nothing.
pub was_added-quiet :
    (fd : ℕ) (ks ls : List Kernel)
    → was_added fd ls ≡ false
    → was_added fd (ks ++ ls) ≡ was_added fd ks
was_added-quiet fd ks ls e = ground (arith, was_added-append fd ks ls, e)

-- No connection of `s'` was closed in `s`.
abbrev pub OpensNone : Server → Server → Type 0
OpensNone s s' = (k : ℕ) → IsClosed k s → IsClosed k s'

conns-logout : (me k : ℕ) (s : Server) → (logout me s).conns k ≡ s.conns k
unfolding logout query
conns-logout me k s = ground arith

sockfd-close_slot :
    (fd sock k : ℕ) (s : Server)
    → ((close_slot fd sock s).conns k).sockfd ≡ (if fd == k then none else (s.conns k).sockfd)
unfolding close_slot
sockfd-close_slot fd sock k s = ground arith

sockfd-cb_func :
    (fd k : ℕ) (s : Server)
    → ((cb_func fd s).conns k).sockfd ≡ (if fd == k then none else (s.conns k).sockfd)
unfolding cb_func close_conn
sockfd-cb_func fd k s = elim (Option-cases (s.conns fd).sockfd) [
  | inl e ↦
      if_rule (λ x. ((cb_func fd s).conns k).sockfd ≡ x) (fd == k)
        (λ same.
          let here : fd ≡ k = ground arith in
          rw (e, cb_func, close_conn) (ap (λ j. (s.conns j).sockfd) (sym here) ∙ e))
        (λ apart. rw (e, cb_func, close_conn) refl)
  | inr (sock, e) ↦
      rw (e, cb_func, close_conn)
        (ap (λ c. c.sockfd) (conns-logout fd k (close_slot fd sock s))
          ∙ sockfd-close_slot fd sock k s)
]

kernel-logout : (me : ℕ) (s : Server) → (logout me s).kernel ≡ s.kernel
unfolding logout query
kernel-logout me s = elim (Bool-cases (same (s.conns me).session_id [])) [
  | inl e ↦ rw (logout, e) refl
  | inr e ↦ elim (Option-cases (s.tables.session_mp (s.conns me).session_id)) [
    | inl unknown ↦ rw (logout, e, unknown) refl
    | inr (user, known) ↦ rw (logout, e, known) refl
  ]
]

was_added-cb_func :
    (fd k : ℕ) (s : Server) → was_added k (cb_func fd s).kernel ≡ was_added k s.kernel
unfolding cb_func close_conn close_slot
was_added-cb_func fd k s = elim (Option-cases (s.conns fd).sockfd) [
  | inl e ↦ rw (e, cb_func, close_conn) refl
  | inr (sock, e) ↦
      rw (e, cb_func, close_conn)
        (ap (was_added k) (kernel-logout fd (close_slot fd sock s))
          ∙ was_added-quiet k s.kernel (remove_fd (some sock) ∷ []) refl)
]

pub cb_func-IsClosed : (fd : ℕ) (s : Server) → IsClosed fd (cb_func fd s)
cb_func-IsClosed fd s = inl (ground (arith, sockfd-cb_func fd fd s))

pub cb_func-OpensNone : (fd : ℕ) (s : Server) → OpensNone s (cb_func fd s)
cb_func-OpensNone fd s k (inl shut) = inl (ground (arith, sockfd-cb_func fd k s, shut))
cb_func-OpensNone fd s k (inr never) = inr (was_added-cb_func fd k s ∙ never)

-- Every timer of the list has its callback.
abbrev pub IsBound : Option ℕ → Type 0
IsBound none = ⊥
IsBound (some fd) = Unit {0}

abbrev pub AllBound : List Timer → Type 0
AllBound [] = Unit {0}
AllBound (t ∷ ts) = IsBound t.user × AllBound ts

-- What the callbacks of the timers `ts` make of the server `s`.
pub record Fired (ts : List Timer) (s s' : Server) : Type 0 where
  pub opens_none : OpensNone s s'
  pub closes : (t : Timer) (fd : ℕ) → pick t.id ts ≡ t ∷ [] → t.user ≡ some fd → IsClosed fd s'

pub record Fires (ts : List Timer) (s : Server) : Type 0 where
  pub server : Server
  pub runs : fire_all ts s ≡ some server
  pub fired : Fired ts s server

first-Fires :
    (t : Timer) (ts : List Timer) (s : Server) (u : Option ℕ)
    → t.user ≡ u
    → IsBound u
    → ((s' : Server) → Fires ts s')
    → Fires (t ∷ ts) s
unfolding fire_all pick
first-Fires t ts s none e bound rest = absurd bound
first-Fires t ts s (some fd) e bound rest =
    let h = rest (cb_func fd s) in
    record {
      server = h.server;
      runs = rw (e, fire_all, h.runs) refl;
      fired = record {
        opens_none = λ k shut. h.fired.opens_none k (cb_func-OpensNone fd s k shut);
        closes = λ t' fd' one user. elim (Bool-cases (t.id == t'.id)) [
          | inl here ↦
              let head : t ∷ pick t'.id ts ≡ t' ∷ [] = rw here at one in
              let same : t ≡ t' = cc in
              let same_fd : some fd ≡ some fd' = sym e ∙ ap (λ x. x.user) same ∙ user in
              let fd_same : fd ≡ fd' = cc in
              subst (λ k. IsClosed k h.server) fd_same
                (h.fired.opens_none fd (cb_func-IsClosed fd s))
          | inr on ↦ h.fired.closes t' fd' (rw on at one) user
        ];
      };
    }

pub fire_all-Fires : (ts : List Timer) (s : Server) → AllBound ts → Fires ts s
unfolding fire_all pick
fire_all-Fires [] s bound = record {
  server = s;
  runs = refl;
  fired = record { opens_none = λ k shut. shut; closes = λ t fd one user. absurd (cc one) };
}
fire_all-Fires (t ∷ ts) s (bound, rest) =
    first-Fires t ts s t.user refl bound (λ s'. fire_all-Fires ts s' rest)
