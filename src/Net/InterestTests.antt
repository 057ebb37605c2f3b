-- ===== src/Net/InterestTests.antt =====
-- Registrations at inputs.
use qing.Common.{refl, some, pos, negsuc}
use qing.Net.Poller.{EpollEvent}
use qing.Net.Interest.{InterestMasks, convert_event_mask, KqueueFilters, added_event, modify_epoll}
use qing.Net.Interests.{IsLinux, Reports}

abbrev pub masks : InterestMasks
masks = record {
  calls = record { epollin = 1; epollout = 4 };
  epollerr = 8;
  epolloneshot = 0x4000_0000;
}

pub masks-IsLinux : IsLinux masks
masks-IsLinux = record { epollin = refl; epollout = refl; epollerr = refl; epolloneshot = refl }

-- Object 7, modified to reading and writing, may be written to.
abbrev writable : EpollEvent
writable = record { ptr = some 7; events = 4 }

abbrev readable : EpollEvent
readable = record { ptr = some 7; events = 1 }

writable-Reports : Reports masks (modify_epoll masks (pos 0) 6 (some 7)).1 writable
unfolding modify_epoll convert_event_mask
writable-Reports = record { same_ptr = refl; read = λ p. refl; write = λ p. refl }

readable-Reports : Reports masks (added_event masks 4 (some 7)) readable
unfolding added_event convert_event_mask
readable-Reports = record { same_ptr = refl; read = λ p. p; write = λ p. cc }

abbrev filters : KqueueFilters
filters = record { evfilt_read = negsuc 0; evfilt_write = negsuc 1 }
