-- ===== src/Platform.antt =====
-- What the preprocessor makes of include/qing/define.hpp and include/qing/net/define.hpp, and the
-- back end that the sources choose by its macros.
mod LocalTime
pub mod Selection
mod Tests
use Prim.Native.String.{String}
use qing.Common.{
  Bool, true, false, Option, none, some, List, [], ◌∷◌, ◌++◌, ◌||◌, not, if◌then◌else◌,
}

-- A macro: not defined, defined as nothing, or as 1, which is what `-D` on the command line does.
data Macro : Type 0 where
  undefined empty one : Macro

unfoldable is_defined : Macro → Bool
is_defined undefined = false
is_defined empty = true
is_defined one = true

-- Which macros the compiler predefines, and whether the build has `-DHAVE_EPOLL`, as those of the
-- samples have.
record Predefined : Type 0 where
  win32 : Bool
  windows : Bool
  osf : Bool
  msc_ver : Bool
  linux : Bool
  freebsd : Bool
  freebsd_kernel : Bool
  netbsd : Bool
  openbsd : Bool
  apple : Bool
  android : Bool
  have_epoll : Bool

-- The `HAVE_*` macros of the systems.
record Systems : Type 0 where
  windows : Bool
  linux : Bool
  freebsd : Bool
  kfreebsd : Bool
  netbsd : Bool
  openbsd : Bool
  darwin : Bool
  android : Bool

-- The two `#error` of the headers for systems that are not supported, that for Linux, and an `#elif`
-- whose condition is empty.
data Diagnostic : Type 0 where
  linux_error not_supported not_supported_net empty_condition : Diagnostic

data Preprocessed {ℓ} (A : Type ℓ) : Type ℓ where
  stops : Diagnostic → Preprocessed A
  goes_on : A → Preprocessed A

-- The headers that define.hpp includes.
unfoldable headers : Predefined → List String
headers p =
    (if p.win32 || p.windows then "process.h" ∷ [] else [])
    ++ (if p.osf then "inttypes.h" ∷ [] else (if not p.msc_ver then "stdint.h" ∷ [] else []))

unfoldable systems : Predefined → Systems
systems p = record {
  windows = p.win32 || p.windows;
  linux = p.linux;
  freebsd = p.freebsd;
  kfreebsd = p.freebsd_kernel;
  netbsd = p.netbsd;
  openbsd = p.openbsd;
  darwin = p.apple;
  android = p.android;
}

unfoldable is_supported : Systems → Bool
is_supported s =
    s.windows
    || (s.linux
        || (s.freebsd || (s.kfreebsd || (s.netbsd || (s.openbsd || (s.darwin || s.android))))))

-- include/qing/define.hpp.
unfoldable define : Predefined → Preprocessed Systems
define p =
    let s = systems p in
    if p.linux
    then stops linux_error
    else (if is_supported s then goes_on s else stops not_supported)

-- The functions that stand for one another on the systems.
data Portable : Type 0 where
  strcat_s strtok_s getpid_windows strcat strtok_r getpid : Portable

-- `strcat_safe`, `strtok_safe` and `get_pid`.
unfoldable portable : Systems → Portable × Portable × Portable
portable s = if s.windows then (strcat_s, strtok_s, getpid_windows) else (strcat, strtok_r, getpid)

-- The `HAVE_*` macros of the back ends.
record Backends : Type 0 where
  iocp : Macro
  epoll : Macro
  kqueue : Macro

unfoldable backends : Bool → Systems → Backends
backends have_epoll s = record {
  iocp = if s.windows then empty else undefined;
  epoll = if have_epoll then one else (if s.linux || s.android then empty else undefined);
  kqueue =
      if s.freebsd || (s.kfreebsd || (s.netbsd || (s.openbsd || s.darwin)))
      then empty
      else undefined;
}

-- The headers that net/define.hpp includes for the systems.
unfoldable net_headers : Systems → List String
net_headers s =
    (if s.windows then "WinSock2.h" ∷ "Windows.h" ∷ "MSWSock.h" ∷ [] else [])
    ++ ((if s.linux || s.android
          then "sys/syscall.h" ∷ "sys/types.h" ∷ "sys/socket.h" ∷ "sys/epoll.h" ∷ "sys/time.h"
            ∷ "netinet/in.h" ∷ "arpa/inet.h" ∷ "fcntl.h" ∷ "unistd.h" ∷ "stdio.h" ∷ "errno.h" ∷ []
          else [])
        ++ (if s.freebsd || (s.kfreebsd || (s.netbsd || (s.openbsd || s.darwin)))
            then "sys/types.h" ∷ "sys/socket.h" ∷ "sys/event.h" ∷ "sys/time.h" ∷ "netinet/in.h"
              ∷ "arpa/inet.h" ∷ "fcntl.h" ∷ "unistd.h" ∷ "errno.h" ∷ []
            else []))

unfoldable has_backend : Backends → Bool
has_backend b = is_defined b.iocp || (is_defined b.epoll || is_defined b.kqueue)

-- What include/qing/net/define.hpp does after it has included define.hpp.
unfoldable choose : Bool → Preprocessed Systems → Preprocessed Backends
choose have_epoll (stops d) = stops d
choose have_epoll (goes_on s) =
    let b = backends have_epoll s in if has_backend b then goes_on b else stops not_supported_net

unfoldable net_define : Predefined → Preprocessed Backends
net_define p = choose p.have_epoll (define p)

data Backend : Type 0 where
  use_iocp use_epoll use_kqueue : Backend

-- The structure that `IO_DATA` is.
unfoldable io_data : Backends → Option Backend
io_data b =
    if is_defined b.iocp
    then some use_iocp
    else (if is_defined b.kqueue
        then some use_kqueue
        else (if is_defined b.epoll then some use_epoll else none))

-- What `socket_t` is: `SOCKET`, or `int`.
data SocketType : Type 0 where
  windows_socket int_socket : SocketType

unfoldable socket_type : Backends → SocketType
socket_type b = if is_defined b.iocp then windows_socket else int_socket

-- The definitions of `Poller::poll` that are compiled.
unfoldable poll_versions : Backends → List Backend
poll_versions b =
    (if is_defined b.iocp then use_iocp ∷ [] else [])
    ++ ((if is_defined b.epoll then use_epoll ∷ [] else [])
        ++ (if is_defined b.kqueue then use_kqueue ∷ [] else []))

-- A later group of a conditional: `#elif MACRO`.
unfoldable else_if : Macro → Backend → Preprocessed (Option Backend) → Preprocessed (Option Backend)
else_if undefined b rest = rest
else_if empty b rest = stops empty_condition
else_if one b rest = goes_on (some b)

-- The definition of `TcpListener::listen` that is compiled.
unfoldable listen_version : Backends → Preprocessed (Option Backend)
listen_version b =
    if is_defined b.iocp
    then goes_on (some use_iocp)
    else else_if b.epoll use_epoll (else_if b.kqueue use_kqueue (goes_on none))
