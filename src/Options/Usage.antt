-- ===== src/Options/Usage.antt =====
-- The usage text of src/statsd.c, and the options that its `main` gives to `getopt`.
use statsd_c.Base.{true, false, List, [], ◌∷◌, ◌++◌, Bytes, ◌==◌, codes}

-- What `syntax` writes to stderr, in front of `exit(1)`.
unfoldable pub syntax_lines : Bytes → Bytes → List Bytes
syntax_lines version argv0 =
    (codes "statsd-c version "
      ++ (version ++ codes "\nhttps://github.com/jbuchbinder/statsd-c\n\n"))
    ∷ (codes "Usage: "
        ++ (argv0
            ++ codes
                " [-hDdfFc] [-p port] [-m port] [-s file] [-G host] [-g port] [-S spoofhost] [-P prefix] [-l lockfile] [-T percentiles] [-R host] [-r port]\n"))
    ∷ codes "\t-p port           set statsd udp listener port (default 8125)\n"
    ∷ codes "\t-m port           set statsd management port (default 8126)\n"
    ∷ codes "\t-s file           serialize state to and from file (default disabled)\n"
    ∷ codes "\t-G host           ganglia host (default disabled)\n"
    ∷ codes "\t-g port           ganglia port (default 8649)\n"
    ∷ codes "\t-R ipv4           graphite ip address  (default disabled)\n"
    ∷ codes "\t-r port           graphite port (default 2003), TCP (not UDP)\n"
    ∷ codes "\t-S spoofhost      ganglia spoof host (default statsd:statsd)\n"
    ∷ codes "\t-P prefix         ganglia metric prefix (default is none)\n"
    ∷ codes "\t-l lockfile       lock file (only used when daemonizing)\n"
    ∷ codes "\t-h                this help display\n"
    ∷ codes "\t-d                enable debug\n"
    ∷ codes "\t-D                daemonize\n"
    ∷ codes "\t-f                enable friendly mode (breaks wire compatibility)\n"
    ∷ codes "\t-F seconds        set flush interval in seconds (default 10)\n"
    ∷ codes "\t-c                clear stats on startup\n"
    ∷ codes "\t-T                percentile thresholds, csv (defaults to 90)\n"
    ∷ []

-- The option string of `getopt`.
abbrev pub option_string : Bytes
option_string = codes "dDfhp:m:s:cg:G:F:S:P:l:T:R:r:"

-- The letters of an option string.
unfoldable pub option_letters : Bytes → Bytes
option_letters [] = []
option_letters (c ∷ cs) =
    let rest = option_letters cs in elim (c == b':') [ true ↦ rest | false ↦ c ∷ rest ]
