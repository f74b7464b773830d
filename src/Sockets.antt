-- ===== src/Sockets.antt =====
-- src/vconnect.c: the socket calls, each through the methods of the API that is the default one. The
-- methods are a parameter, on a state that has the sockets; an address or an option is a text.
use bctoolbox.Common.{ℕ, List, Option, none, some, ◌≡◌, refl, ◌∙◌}
use bctoolbox.Common.Int.{ℤ}

abbrev pub Bytes : Type 0
Bytes = List ℕ

-- `bctbx_vsocket_methods_t`: each returns its status and the new state, `get_sock_name` and
-- `get_sock_opt` also what they put into the buffer.
pub record Methods (S : Type 0) : Type 0 where
  pub socket_method : (family kind protocol : ℤ) → S → ℤ × S
  pub connect_method : (sock : ℤ) (address : Bytes) → S → ℤ × S
  pub bind_method : (sock : ℤ) (address : Bytes) → S → ℤ × S
  pub get_sock_name : (sock : ℤ) (room : ℕ) → S → (ℤ × Bytes) × S
  pub get_sock_opt : (sock level name : ℤ) (room : ℕ) → S → (ℤ × Bytes) × S
  pub set_sock_opt : (sock level name : ℤ) (value : Bytes) → S → ℤ × S
  pub close_method : (sock : ℤ) → S → ℤ × S
  pub get_error : (err : ℤ) → Bytes
  pub shutdown_method : (sock how : ℤ) → S → ℤ × S

-- `bctbx_vsocket_api_t`
pub record Api (S : Type 0) : Type 0 where
  pub name : Bytes
  pub methods : Methods S

-- The standard API, and the default one that `pDefaultvSocket` points to.
pub record Sockets (S : Type 0) : Type 0 where
  pub standard : Api S
  pub current : Api S
  pub state : S

module _ {S : Type 0} where
  abbrev pub through : {A : Type 0} → (Methods S → S → A × S) → Sockets S → A × Sockets S
  through method v = let (a, s) = method v.current.methods v.state in (a, record v { state = s })

  unfoldable pub socket : (family kind protocol : ℤ) → Sockets S → ℤ × Sockets S
  socket family kind protocol = through λ m. m.socket_method family kind protocol

  unfoldable pub socket_close : ℤ → Sockets S → ℤ × Sockets S
  socket_close sock = through λ m. m.close_method sock

  unfoldable pub bind : ℤ → Bytes → Sockets S → ℤ × Sockets S
  bind sock address = through λ m. m.bind_method sock address

  unfoldable pub connect : ℤ → Bytes → Sockets S → ℤ × Sockets S
  connect sock address = through λ m. m.connect_method sock address

  unfoldable pub getsockname : ℤ → (room : ℕ) → Sockets S → (ℤ × Bytes) × Sockets S
  getsockname sock room = through λ m. m.get_sock_name sock room

  unfoldable pub getsockopt : (sock level name : ℤ) (room : ℕ) → Sockets S → (ℤ × Bytes) × Sockets S
  getsockopt sock level name room = through λ m. m.get_sock_opt sock level name room

  unfoldable pub setsockopt : (sock level name : ℤ) → Bytes → Sockets S → ℤ × Sockets S
  setsockopt sock level name value = through λ m. m.set_sock_opt sock level name value

  unfoldable pub shutdown : (sock how : ℤ) → Sockets S → ℤ × Sockets S
  shutdown sock how = through λ m. m.shutdown_method sock how

  unfoldable pub socket_error : ℤ → Sockets S → Bytes
  socket_error err v = v.current.methods.get_error err

  unfoldable pub vsocket_api_set_default : Option (Api S) → Sockets S → Sockets S
  vsocket_api_set_default none v = record v { current = v.standard }
  vsocket_api_set_default (some api) v = record v { current = api }

  unfoldable pub vsocket_api_get_default : Sockets S → Api S
  vsocket_api_get_default v = v.current

  unfoldable pub vsocket_api_get_standard : Sockets S → Api S
  vsocket_api_get_standard v = v.standard

  -- The calls that can be made on the default API.
  pub data SocketStep (v : Sockets S) : Sockets S → Type 0 where
    by_socket : (family kind protocol : ℤ) → SocketStep v (socket family kind protocol v).1
    by_close : (sock : ℤ) → SocketStep v (socket_close sock v).1
    by_bind : (sock : ℤ) (address : Bytes) → SocketStep v (bind sock address v).1
    by_connect : (sock : ℤ) (address : Bytes) → SocketStep v (connect sock address v).1
    by_getsockname : (sock : ℤ) (room : ℕ) → SocketStep v (getsockname sock room v).1
    by_getsockopt :
        (sock level name : ℤ) (room : ℕ) → SocketStep v (getsockopt sock level name room v).1
    by_setsockopt :
        (sock level name : ℤ) (value : Bytes) → SocketStep v (setsockopt sock level name value v).1
    by_shutdown : (sock how : ℤ) → SocketStep v (shutdown sock how v).1
    by_set_default : (api : Option (Api S)) → SocketStep v (vsocket_api_set_default api v)

  pub data Steps (v : Sockets S) : Sockets S → Type 0 where
    start : Steps v v
    then_step : {w u : Sockets S} → Steps v w → SocketStep w u → Steps v u

  SocketStep-standard : {v w : Sockets S} → SocketStep v w → w.standard ≡ v.standard
  unfolding socket socket_close bind connect getsockname getsockopt setsockopt shutdown
      vsocket_api_set_default
  SocketStep-standard (by_socket family kind protocol) = refl
  SocketStep-standard (by_close sock) = refl
  SocketStep-standard (by_bind sock address) = refl
  SocketStep-standard (by_connect sock address) = refl
  SocketStep-standard (by_getsockname sock room) = refl
  SocketStep-standard (by_getsockopt sock level name room) = refl
  SocketStep-standard (by_setsockopt sock level name value) = refl
  SocketStep-standard (by_shutdown sock how) = refl
  SocketStep-standard (by_set_default none) = refl
  SocketStep-standard (by_set_default (some api)) = refl

  Steps-standard : {v w : Sockets S} → Steps v w → w.standard ≡ v.standard
  Steps-standard start = refl
  Steps-standard (then_step steps last) = SocketStep-standard last ∙ Steps-standard steps

  -- Whatever calls were made before, and whatever APIs were the default one,
  -- `bctbx_vsocket_api_set_default(NULL)` makes the standard API the default one again, which
  -- `bctbx_vsocket_api_get_standard` gave at the start.
  pub set_default-standard :
      {v w : Sockets S}
      → Steps v w
      → vsocket_api_get_default (vsocket_api_set_default none w) ≡ vsocket_api_get_standard v
  unfolding vsocket_api_get_default vsocket_api_set_default vsocket_api_get_standard
  set_default-standard steps = Steps-standard steps
