-- ===== src/Engine/Routes/Deletion.antt =====
-- Which of the gallery and the tables a DELETE /gallery/delete (iris-engine2/src/routes_gallery.cpp)
-- reaches, and what the next start (iris-engine2/src/main.cpp) loads.
use eye_d.Base.Eq.{bytes_Eq}
use eye_d.Engine.Gallery.{Gallery}
