-- ===== src/Client/Usage.antt =====
-- The usage text of src/statsd_client.c.
use statsd_c.Base.{List, [], ◌∷◌, ◌++◌, Bytes, codes}

-- What `usage` writes to stderr.
unfoldable pub usage_lines : Bytes → List Bytes
usage_lines argv0 =
    (codes "Usage: "
      ++ (argv0
          ++ codes
              " [-hP] [-H host] [-p port] [-c counter] [-t timer] [-v value] [-i iterations]\n"))
    ∷ codes "\t-h               This help screen\n"
    ∷ codes "\t-H host          Destination statsd server name/ip (default 127.0.0.1)\n"
    ∷ codes "\t-p port          Destination statsd server port (defaults to 8125)\n"
    ∷ codes "\t-c counter       Counter name (required, or timer)\n"
    ∷ codes "\t-t timer         Timer name (required, or counter)\n"
    ∷ codes "\t-v value         Value (required)\n"
    ∷ codes "\t-P               Performance testing mode (disabled by default)\n"
    ∷ codes "\t-i iterations    Performance test iterations (defaults to 10000)\n"
    ∷ codes "\nBoth a counter and timer cannot exist at the same time.\n"
    ∷ []
