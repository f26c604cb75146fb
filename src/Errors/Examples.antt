-- ===== src/Errors/Examples.antt =====
-- The theorem on src/platform/error.cpp at a concrete code.
use socketpp.Errors.{Errno}

-- Linux, on most machines.
abbrev pub linux : Errno
linux = record {
  eagain = 11;
  ewouldblock = 11;
  einprogress = 115;
  econnreset = 104;
  econnrefused = 111;
  econnaborted = 103;
  enotconn = 107;
  eaddrinuse = 98;
  enetunreach = 101;
  etimedout = 110;
  eintr = 4;
  emfile = 24;
  enfile = 23;
}
