-- ===== src/Client/Lost.antt =====
-- From the client's option `-t` to the server (src/client.c, src/server.c, src/parse_size.c).
use so.Server.{Server}
