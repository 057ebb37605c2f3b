-- ===== src/Platform/Tests.antt =====
-- The headers on some systems.
use qing.Common.{◌≡◌, refl, true, false, some, [], ◌∷◌}
use qing.Platform.{
  Predefined, Backends, undefined, empty, stops, goes_on, linux_error, use_kqueue, use_epoll,
  is_defined, headers, net_headers, systems, is_supported, define, strcat, strtok_r, getpid,
  portable, backends, has_backend, choose, net_define, io_data, int_socket, socket_type,
  poll_versions,
}
use qing.Platform.Selection.{Listens, selection}

abbrev none_of_them : Predefined
none_of_them = record {
  win32 = false;
  windows = false;
  osf = false;
  msc_ver = false;
  linux = false;
  freebsd = false;
  freebsd_kernel = false;
  netbsd = false;
  openbsd = false;
  apple = false;
  android = false;
  have_epoll = false;
}

abbrev apple : Predefined
apple = record none_of_them { apple = true }

abbrev kqueue_only : Backends
kqueue_only = record { iocp = undefined; epoll = undefined; kqueue = empty }

net_define-apple : net_define apple ≡ goes_on kqueue_only
unfolding net_define choose define is_supported systems backends has_backend is_defined
net_define-apple = refl

poll_versions-apple : poll_versions kqueue_only ≡ use_kqueue ∷ []
unfolding poll_versions is_defined
poll_versions-apple = refl

selection_example :
    (apple.linux ≡ false)
    × (io_data kqueue_only ≡ some use_kqueue)
    × Listens false use_kqueue kqueue_only
selection_example = selection apple kqueue_only use_kqueue net_define-apple poll_versions-apple

headers-apple : headers apple ≡ "stdint.h" ∷ []
unfolding headers
headers-apple = refl

portable-apple : portable (systems apple) ≡ (strcat, strtok_r, getpid)
unfolding portable systems
portable-apple = refl

socket_type-apple : socket_type kqueue_only ≡ int_socket
unfolding socket_type is_defined
socket_type-apple = refl

-- With the flag of the samples there are two versions of `poll`.
poll_versions-flag : poll_versions (backends true (systems apple)) ≡ use_epoll ∷ use_kqueue ∷ []
unfolding poll_versions is_defined backends systems
poll_versions-flag = refl

net_define-linux :
    net_define (record none_of_them { linux = true; have_epoll = true }) ≡ stops linux_error
unfolding net_define choose define
net_define-linux = refl

net_headers-windows :
    net_headers (systems (record none_of_them { win32 = true }))
    ≡ "WinSock2.h" ∷ "Windows.h" ∷ "MSWSock.h" ∷ []
unfolding net_headers systems
net_headers-windows = refl
